-- ===== src/Player/Command/Ordering.antt =====
-- Ordering and idempotency of commands: sequence numbers within a session, identifiers across them.
use adaptive_advertisement.Common.{
  ℕ, ap, suc, ◌+◌, ◌≤◌, ◌<◌, String, ◌≡◌, refl, ◌⊎◌, inl, inr, Bool, true, false, Option, none,
  some, List, [], ◌∷◌, arith, Bool-cases, if◌then◌else◌, length,
}
use adaptive_advertisement.Common.Outcome.{Outcome, ok, raised}
use adaptive_advertisement.Seen.{max_seen_ids, is_seen, record_id}
use adaptive_advertisement.Seen.Window.{
  length-record_id, IsRecent, IsRecent-is_seen, record_id-IsRecent, record_id_new-IsRecent,
}
use adaptive_advertisement.Player.State.{TransitionResult}
use adaptive_advertisement.Player.Command.{
  Command, CommandHandler, Surroundings, Handled, dropped, settle, dispatch, out_of_order,
  record_command, handle_command, reset_session, handle_activate_creative,
}

-- What a session receives: commands, each with what the handler reads of its surroundings.
abbrev pub Session : Type 0
Session = List (Surroundings × Command)

unfoldable pub run_session : CommandHandler → Session → CommandHandler
run_session h [] = h
run_session h ((env, c) ∷ cs) = run_session (handle_command env h c).0 cs

abbrev pub was_dropped : Handled → Bool
was_dropped dropped = true
was_dropped _ = false

-- The sequence numbers of the commands that were not dropped.
unfoldable pub applied : CommandHandler → Session → List ℕ
applied h [] = []
applied h ((env, c) ∷ cs) =
    let rest = applied (handle_command env h c).0 cs in
    if was_dropped (handle_command env h c).1 then rest else c.sequence_number ∷ rest

-- Above the last number applied, if there is one.
abbrev pub IsAbove : Option ℕ → ℕ → Type 0
IsAbove none n = Unit
IsAbove (some last) n = last < n

-- Each number is above the one before it.
abbrev pub IsIncreasingFrom : Option ℕ → List ℕ → Type 0
IsIncreasingFrom o [] = Unit
IsIncreasingFrom o (n ∷ ns) = IsAbove o n × IsIncreasingFrom (some n) ns

-- The bookkeeping of a command does not depend on how its dispatch ends.
settle_bookkeeping :
    (env : Surroundings) (h : CommandHandler) (c : Command)
    → let h' = (settle h (dispatch env h c)).0 in
      (h'.seen_command_ids ≡ h.seen_command_ids) × (h'.last_sequence ≡ h.last_sequence)
unfolding settle dispatch handle_activate_creative
settle_bookkeeping env h c = ground arith

settle_applied :
    (h : CommandHandler) (r : Outcome (CommandHandler × TransitionResult))
    → was_dropped (settle h r).1 ≡ false
unfolding settle
settle_applied h (ok x) = refl
settle_applied h (raised e) = refl

-- A command that is taken: it is new, in order, and both are written down.
pub record IsTaken (env : Surroundings) (h : CommandHandler) (c : Command) : Type 0 where
  pub taken : was_dropped (handle_command env h c).1 ≡ false
  pub fresh : is_seen c.command_id h.seen_command_ids ≡ false
  pub in_order : out_of_order h.last_sequence c.sequence_number ≡ false
  pub seen_after :
      (handle_command env h c).0.seen_command_ids ≡ record_id c.command_id h.seen_command_ids
  pub last_after : (handle_command env h c).0.last_sequence ≡ some c.sequence_number

-- A command that is new and in order is taken.
pub handle_command-IsTaken :
    (env : Surroundings) (h : CommandHandler) (c : Command)
    → is_seen c.command_id h.seen_command_ids ≡ false
    → out_of_order h.last_sequence c.sequence_number ≡ false
    → IsTaken env h c
unfolding handle_command record_command
handle_command-IsTaken env h c new next = record {
  taken = rw (new, next) (settle_applied _ (dispatch env (record_command h c) c));
  fresh = new;
  in_order = next;
  seen_after = rw (new, next) (settle_bookkeeping env (record_command h c) c).0;
  last_after = rw (new, next) (settle_bookkeeping env (record_command h c) c).1;
}

pub handle_command_cases :
    (env : Surroundings) (h : CommandHandler) (c : Command)
    → (handle_command env h c ≡ (h, dropped)) ⊎ IsTaken env h c
unfolding handle_command
handle_command_cases env h c = elim (Bool-cases (is_seen c.command_id h.seen_command_ids)) [
  | inl old ↦ inl (rw old)
  | inr new ↦ elim (Bool-cases (out_of_order h.last_sequence c.sequence_number)) [
    | inl late ↦ inl (rw (new, late))
    | inr next ↦ inr (handle_command-IsTaken env h c new next)
  ]
]

IsAbove-in_order : (o : Option ℕ) (n : ℕ) → out_of_order o n ≡ false → IsAbove o n
unfolding out_of_order
IsAbove-in_order none n h = tt
IsAbove-in_order (some last) n h = ground arith

-- In one session the commands that are applied have increasing sequence numbers, all above the
-- last one applied before.
pub applied_increasing :
    (h : CommandHandler) (cs : Session) → IsIncreasingFrom h.last_sequence (applied h cs)
unfolding applied
applied_increasing h [] = tt
applied_increasing h ((env, c) ∷ cs) = elim (handle_command_cases env h c) [
  | inl kept ↦ rw kept (applied_increasing h cs)
  | inr t ↦ rw (t.taken) (
    IsAbove-in_order h.last_sequence c.sequence_number t.in_order,
    rw (t.last_after) at (applied_increasing (handle_command env h c).0 cs),
  )
]

pub length-handle_command :
    (env : Surroundings) (h : CommandHandler) (c : Command)
    → length h.seen_command_ids ≤ max_seen_ids
    → length (handle_command env h c).0.seen_command_ids ≤ max_seen_ids
length-handle_command env h c few = elim (handle_command_cases env h c) [
  | inl kept ↦ rw kept few
  | inr t ↦ rw (t.seen_after) (length-record_id c.command_id h.seen_command_ids few)
]

-- Sessions one after another: each starts with a reset of the sequence number.
unfoldable pub run_sessions : CommandHandler → List Session → CommandHandler
unfolding run_session
run_sessions h [] = h
run_sessions h (s ∷ ss) = run_sessions (run_session (reset_session h) s) ss

-- The number of commands in all.
abbrev pub total : List Session → ℕ
total [] = 0
total (s ∷ ss) = length s + total ss

weaken :
    (k : String) {n : ℕ} (m : ℕ) {ids : List String} → n ≤ m → IsRecent k n ids → IsRecent k m ids
weaken k m le r = record {
  older = r.older;
  younger = r.younger;
  at = r.at;
  few = omega (arith, r.few);
}

run_session-IsRecent :
    (k : String) (n : ℕ) (h : CommandHandler) (cs : Session)
    → length h.seen_command_ids ≤ max_seen_ids
    → n + length cs ≤ 2_500
    → IsRecent k n h.seen_command_ids
    → (length (run_session h cs).seen_command_ids ≤ max_seen_ids)
      × IsRecent k (n + length cs) (run_session h cs).seen_command_ids
unfolding run_session
run_session-IsRecent k n h [] few short r = (few, weaken k (n + 0) (omega arith) r)
run_session-IsRecent k n h ((env, c) ∷ cs) few short r =
    let step : IsRecent k (suc n) (handle_command env h c).0.seen_command_ids =
      elim (handle_command_cases env h c) [
        | inl kept ↦ rw kept (weaken k (suc n) (omega arith) r)
        | inr t ↦
            rw (t.seen_after)
              (record_id-IsRecent k c.command_id n h.seen_command_ids few (omega arith) r)
      ] in
    let (few', r') =
      run_session-IsRecent k (suc n) (handle_command env h c).0 cs
        (length-handle_command env h c few) (omega arith) step in
    (few', weaken k (n + suc (length cs)) (omega arith) r')

run_sessions-IsRecent :
    (k : String) (n : ℕ) (h : CommandHandler) (ss : List Session)
    → length h.seen_command_ids ≤ max_seen_ids
    → n + total ss ≤ 2_500
    → IsRecent k n h.seen_command_ids
    → IsRecent k (n + total ss) (run_sessions h ss).seen_command_ids
unfolding run_sessions reset_session
run_sessions-IsRecent k n h [] few short r = weaken k (n + 0) (omega arith) r
run_sessions-IsRecent k n h (s ∷ ss) few short r =
    let (few', r') = run_session-IsRecent k n (reset_session h) s few (omega arith) r in
    weaken k (n + (length s + total ss)) (omega arith) (
      run_sessions-IsRecent k (n + length s) (run_session (reset_session h) s) ss few' (omega arith)
        r')

dropped_if_seen :
    (env : Surroundings) (h : CommandHandler) (c : Command)
    → is_seen c.command_id h.seen_command_ids ≡ true
    → handle_command env h c ≡ (h, dropped)
unfolding handle_command
dropped_if_seen env h c old = rw old

-- A command that was taken by a handler that remembers at most 5000 identifiers is dropped, and
-- changes nothing, when it comes again after up to 2500 other commands, in any number of later
-- sessions.
pub taken_once :
    (env env' : Surroundings) (h : CommandHandler) (c : Command) (ss : List Session)
    → length h.seen_command_ids ≤ max_seen_ids
    → was_dropped (handle_command env h c).1 ≡ false
    → total ss ≤ 2_500
    → let later = run_sessions (handle_command env h c).0 ss in
      handle_command env' later c ≡ (later, dropped)
taken_once env env' h c ss few was short =
    dropped_if_seen env' (run_sessions (handle_command env h c).0 ss) c (
      IsRecent-is_seen c.command_id (
        run_sessions-IsRecent c.command_id 0 (handle_command env h c).0 ss
          (length-handle_command env h c few) (omega arith)
          (elim (handle_command_cases env h c) [
            | inl kept ↦ cc (ap (λ (x : CommandHandler × Handled). was_dropped x.1) kept)
            | inr t ↦
                rw (t.seen_after)
                  (record_id_new-IsRecent c.command_id h.seen_command_ids few t.fresh)
          ])))
