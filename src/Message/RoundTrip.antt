-- ===== src/Message/RoundTrip.antt =====
-- What a message is after a trip over the wire.
use aqap.Prelude.{◌≡◌, refl, ap}
use aqap.Value.{str, get_field_or}
use aqap.Text.{Python}
use aqap.Message.Types.{MessageType, unknown, value, resolve_type}
use aqap.Message.Wire.{RawMessage, Fresh, to_dict, from_dict}

pub resolve_type-value : (py : Python) (t : MessageType) → resolve_type py (str (value t)) ≡ t
unfolding resolve_type value
resolve_type-value py unknown = refl
resolve_type-value py _ = refl

-- Decoding what `to_dict` wrote gives back the message in every field, whatever JSON values the
-- fields hold and whatever the decoder's default factories would draw.
pub from_dict-to_dict : (py : Python) (f : Fresh) (m : RawMessage) → from_dict py f (to_dict m) ≡ m
unfolding from_dict to_dict get_field_or
from_dict-to_dict py f m = ap (λ t. record m { type = t }) (resolve_type-value py m.type)
