-- ===== src/Admin/Letters.antt =====
-- A replay through the page of aqap/admin.py, and what its pages on dead letters show afterwards.
use mathlib.Core.List.{reverse}
use aqap.Prelude.{
  ℕ, ◌+◌, ◌<◌, [], String, false, ◌&&◌, Option, some, get, length, ok, leb, ◌≡◌, refl, ap, ◌∙◌,
  arith, All,
}
use aqap.Agent.DlqConsumer.{DlqState, Stats, last_of, replay, get_dead_letters}
use aqap.Agent.DlqConsumer.Replay.{IsReplayable, matching, others, replay_lem}
use aqap.Agent.Supervisor.{Member}
use aqap.Engine.{EngineState}
use aqap.Cli.{Office}
use aqap.Admin.{
  answered, letters, statistics, is_blank, replay_found, dlq_replay, dlq_list, dlq_stats,
}

latest :
    (limit : ℕ) (d : DlqState)
    → 0 < limit
    → get_dead_letters limit d ≡ reverse (last_of limit d.dead_letters)
unfolding get_dead_letters
latest limit d h = let positive : leb limit 0 ≡ false = ground arith in rw positive refl

module _ {T B W : Type 0} (o : Office T B W) where
  -- the state that the replay leaves the consumer in
  abbrev replayed_state : Option String → Option String → W → DlqState
  replayed_state message_id trace_id w = (replay (o.draws w) message_id trace_id (o.letters w)).1

  listed :
      (limit : ℕ) (e : EngineState T B W) (dlq : Member W)
      → get "dlq-consumer" e.supervisor.agents ≡ some dlq
      → dlq_list o limit (some e) ≡ answered (letters (get_dead_letters limit (o.letters e.world)))
  unfolding dlq_list
  listed limit e dlq registered = rw (registered, dlq_list) refl

  counted_stats :
      (e : EngineState T B W) (dlq : Member W)
      → get "dlq-consumer" e.supervisor.agents ≡ some dlq
      → dlq_stats o (some e)
        ≡ answered (statistics (o.letters e.world).stats (length (o.letters e.world).dead_letters))
  unfolding dlq_stats
  counted_stats e dlq registered = rw (registered, dlq_stats) refl

  -- A replay is asked for by an identifier that is not empty, the DLQ consumer is registered and its
  -- state can be read back; the transport raises nothing and every matching letter has a type of the
  -- enum or no original. The page answers with the number of the matching letters; after that the
  -- page of the letters, for a limit of one or more, shows the last ones of those that do not match, and the statistics count the
  -- matching ones as replayed and the others as pending.
  pub dlq_list-dlq_replay :
      (message_id trace_id : Option String) (limit : ℕ) (e : EngineState T B W) (dlq : Member W)
      → 0 < limit
      → (is_blank message_id && is_blank trace_id) ≡ false
      → get "dlq-consumer" e.supervisor.agents ≡ some dlq
      → ((d : DlqState) (w : W) → o.letters (o.with_letters d w) ≡ d)
      → (o.letters e.world).faults ≡ []
      → All IsReplayable (matching message_id trace_id (o.letters e.world).dead_letters)
      → let found = matching message_id trace_id (o.letters e.world).dead_letters in
        let left = others message_id trace_id (o.letters e.world).dead_letters in
        let r = dlq_replay o message_id trace_id (some e) in
        (r.0 ≡ ok (answered (length found)))
        × (dlq_list o limit r.1 ≡ answered (letters (reverse (last_of limit left))))
        × ((stats : Stats) × (dlq_stats o r.1 ≡ answered (statistics stats (length left)))
            × (stats.replayed ≡ (o.letters e.world).stats.replayed + length found))
  unfolding dlq_replay replay_found
  dlq_list-dlq_replay message_id trace_id limit e dlq some_limit asked registered kept calm good =
      let (counted, logged, index, total) =
        replay_lem (o.draws e.world) message_id trace_id (o.letters e.world) calm good in
      let d = replayed_state message_id trace_id e.world in
      let e' = record e { world = o.with_letters d e.world } in
      let same : dlq_replay o message_id trace_id (some e) ≡ (
        ok (answered (length (matching message_id trace_id (o.letters e.world).dead_letters))),
        some e',
      ) =
        rw (asked, dlq_replay, registered, counted) refl in
      rw same (
        refl,
        listed limit e' dlq registered
            ∙ ap (λ d. answered (letters (get_dead_letters limit d))) (kept d e.world)
            ∙ ap (λ l. answered (letters l)) (latest limit d some_limit)
            ∙ ap (λ l. answered (letters (reverse (last_of limit l)))) index,
        (
          d.stats,
          counted_stats e' dlq registered
              ∙ ap (λ (d : DlqState). answered (statistics d.stats (length d.dead_letters)))
                  (kept d e.world)
              ∙ ap (λ l. answered (statistics d.stats (length l))) index,
          total,
        ),
      )
