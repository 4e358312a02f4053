-- ===== src/Agent/Base/Once.antt =====
-- Deliveries of an identifier that was seen before.
use aqap.Prelude.{
  ℕ, ◌+◌, ◌<◌, String, true, false, Option, some, get, put, ok, ◌≡◌, ◌≢◌, refl, ap, ◌∙◌, arith,
  get-put, eq_refl, eq_iff, List, [], ◌∷◌, All, ◌==◌, Bool-cases, inl, inr, differ,
}
use aqap.Message.{Message}
use aqap.Agent.State.{Agent, AgentState}
use aqap.Agent.Base.{goes_on, is_duplicate, accept, consume}
use aqap.Agent.Base.Marks.{KeepsMarks, accept-KeepsMarks}

module _ {W : Type 0} (a : Agent W) where
  abbrev pub noted : String → Option String → AgentState W → AgentState W
  noted topic id s = record s { last_topic = topic; last_group = a.group; last_msg_id = id }

  consume_duplicate :
      (topic : String) (later ts : ℕ) (id : Option String) (m : Message) (s : AgentState W)
      → s.running ≡ true
      → get m.message_id s.processed_ids ≡ some ts
      → later < ts + a.idempotency_ttl
      → consume a topic later id m s ≡ (ok goes_on, noted topic id s)
  unfolding consume
  consume_duplicate topic later ts id m s up seen early = ground arith

  -- the state in which a message is taken up
  abbrev pub taken : String → ℕ → Option String → Message → AgentState W → AgentState W
  taken topic now id m s = record (noted topic id s) {
    processed_ids = put m.message_id now s.processed_ids;
  }

  pub consume_new :
      (topic : String) (now : ℕ) (id : Option String) (m : Message) (s : AgentState W)
      → s.running ≡ true
      → m.source ≢ a.agent_id
      → is_duplicate a now (get m.message_id s.processed_ids) ≡ false
      → consume a topic now id m s ≡ accept a m topic (taken topic now id m s)
  unfolding consume
  consume_new topic now id m s up other new = ground (arith, eq_iff m.source a.agent_id)

  -- The agent runs, and has the identifier noted with its time.
  abbrev Seen : String → ℕ → AgentState W → Type 0
  Seen message_id ts s = (s.running ≡ true) × (get message_id s.processed_ids ≡ some ts)

  taken-Seen :
      (topic message_id : String) (now ts : ℕ) (id : Option String) (m : Message) (s : AgentState W)
      → ((n : Message) → KeepsMarks (a.handle_message n))
      → (m.message_id == message_id) ≡ false
      → Seen message_id ts s
      → Seen message_id ts (accept a m topic (taken topic now id m s)).1
  taken-Seen topic message_id now ts id m s handles differs (up, seen) =
      let (marks, runs) = (accept-KeepsMarks a handles m topic).at (taken topic now id m s) in
      (runs ∙ up, ap (get message_id) marks ∙ (rw (get-put, differs) seen))

  consume_echo :
      (topic : String) (now : ℕ) (id : Option String) (m : Message) (s : AgentState W)
      → s.running ≡ true
      → (m.source == a.agent_id) ≡ true
      → consume a topic now id m s ≡ (ok goes_on, noted topic id s)
  unfolding consume
  consume_echo topic now id m s up echo = ground arith

  consume_again :
      (topic : String) (now : ℕ) (id : Option String) (m : Message) (s : AgentState W)
      → s.running ≡ true
      → is_duplicate a now (get m.message_id s.processed_ids) ≡ true
      → consume a topic now id m s ≡ (ok goes_on, noted topic id s)
  unfolding consume
  consume_again topic now id m s up again = ground arith

  -- A delivery of another identifier leaves it so.
  consume-Seen :
      (topic message_id : String) (now ts : ℕ) (id : Option String) (m : Message) (s : AgentState W)
      → ((n : Message) → KeepsMarks (a.handle_message n))
      → (m.message_id == message_id) ≡ false
      → Seen message_id ts s
      → Seen message_id ts (consume a topic now id m s).1
  consume-Seen topic message_id now ts id m s handles differs (up, seen) =
      elim (Bool-cases (m.source == a.agent_id)) [
        | inl echo ↦
            let same = consume_echo topic now id m s up echo in
            (
              ap (λ r. r.1.running) same ∙ up,
              ap (λ r. get message_id r.1.processed_ids) same ∙ seen,
            )
        | inr other ↦ elim (Bool-cases (is_duplicate a now (get m.message_id s.processed_ids))) [
          | inl again ↦
              let same = consume_again topic now id m s up again in
              (
                ap (λ r. r.1.running) same ∙ up,
                ap (λ r. get message_id r.1.processed_ids) same ∙ seen,
              )
          | inr new ↦
              let same = consume_new topic now id m s up (differ m.source a.agent_id other) new in
              let (up', seen') =
                taken-Seen topic message_id now ts id m s handles differs (up, seen) in
              (
                ap (λ r. r.1.running) same ∙ up',
                ap (λ r. get message_id r.1.processed_ids) same ∙ seen',
              )
        ]
      ]

  -- a message that comes from the transport, with the topic, the time and the transport's identifier
  pub record Arrival : Type 0 where
    pub topic : String
    pub now : ℕ
    pub id : Option String
    pub message : Message

  unfoldable pub consume_each : List Arrival → AgentState W → AgentState W
  unfolding consume
  consume_each [] s = s
  consume_each (d ∷ ds) s = consume_each ds (consume a d.topic d.now d.id d.message s).1

  -- an arrival of another identifier
  abbrev IsOther : String → Arrival → Type 0
  IsOther message_id d = (d.message.message_id == message_id) ≡ false

  consume_each-Seen :
      (message_id : String) (ts : ℕ) (ds : List Arrival) (s : AgentState W)
      → ((n : Message) → KeepsMarks (a.handle_message n))
      → All (IsOther message_id) ds
      → Seen message_id ts s
      → Seen message_id ts (consume_each ds s)
  unfolding consume_each
  consume_each-Seen message_id ts [] s handles others seen = seen
  consume_each-Seen message_id ts (d ∷ ds) s handles (other, others) seen =
      consume_each-Seen message_id ts ds (consume a d.topic d.now d.id d.message s).1 handles others
        (consume-Seen d.topic message_id d.now ts d.id d.message s handles other seen)

  -- An agent runs, its handlers leave the seen identifiers and the running flag alone, and it takes up
  -- a message of another sender that is no duplicate. Any messages with other identifiers then arrive,
  -- and no round of the cleaning comes between. An arrival of the same identifier, while less than the
  -- time to live has passed and whatever came of the first, is noted, and is neither handled nor
  -- published nor acknowledged, and counts as no retry.
  pub consume_twice :
      (topic again : String) (now later : ℕ) (id id' : Option String) (m m' : Message)
      (between : List Arrival) (s : AgentState W)
      → ((n : Message) → KeepsMarks (a.handle_message n))
      → s.running ≡ true
      → m.source ≢ a.agent_id
      → is_duplicate a now (get m.message_id s.processed_ids) ≡ false
      → All (IsOther m.message_id) between
      → m'.message_id ≡ m.message_id
      → later < now + a.idempotency_ttl
      → (let t = consume_each between (consume a topic now id m s).1 in
          consume a again later id' m' t ≡ (ok goes_on, noted again id' t))
  consume_twice topic again now later id id' m m' between s handles up other new others same early =
      let t : AgentState W = (consume a topic now id m s).1 in
      let taken_up : t ≡ (accept a m topic (taken topic now id m s)).1 =
        ap (λ r. r.1) (consume_new topic now id m s up other new) in
      let (marks, runs) = (accept-KeepsMarks a handles m topic).at (taken topic now id m s) in
      let noted_at : get m.message_id t.processed_ids ≡ some now =
        ap (λ u. get m.message_id u.processed_ids) taken_up
        ∙ (ap (get m.message_id) marks ∙ (rw (get-put, eq_refl m.message_id) refl)) in
      let (runs', seen) =
        consume_each-Seen m.message_id now between t handles others
          (ap (λ u. u.running) taken_up ∙ (runs ∙ up), noted_at) in
      consume_duplicate again later now id' m' (consume_each between t) runs' (rw same seen) early
