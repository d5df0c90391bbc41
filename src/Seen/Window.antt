-- ===== src/Seen/Window.antt =====
-- How much the list of seen identifiers holds, and what it never forgets.
use adaptive_advertisement.Common.{
  ℕ, suc, ◌+◌, ◌/◌, ◌≤◌, ◌<◌, String, ◌≡◌, refl, ap, Bool, true, false, ◌||◌, List, [], ◌∷◌, ◌++◌,
  arith, ltb, length, drop, length-append, length-drop, Bool-cases, ltb→lt, drop-append, inl, inr,
  eq_refl,
}
use mathlib.Core.List.{append_assoc}
use adaptive_advertisement.Seen.{max_seen_ids, is_seen, add, prune, record_id}

length-add : (k : String) (ids : List String) → length (add k ids) ≤ suc (length ids)
unfolding add
length-add k ids = ground (arith, length-append ids (k ∷ []))

length-prune :
    (cap : ℕ) (ids : List String) → length ids ≤ suc cap → 1 < cap → length (prune cap ids) ≤ cap
unfolding prune
length-prune cap ids h c = ground (arith, length-drop (cap / 2) ids)

-- At most 5000 identifiers are remembered.
pub length-record_id :
    (k : String) (ids : List String)
    → length ids ≤ max_seen_ids
    → length (record_id k ids) ≤ max_seen_ids
unfolding record_id
length-record_id k ids h =
    length-prune max_seen_ids (add k ids) (omega (arith, length-add k ids)) (omega arith)

any-append :
    (k : String) (xs ys : List String) → is_seen k (xs ++ ys) ≡ (is_seen k xs || is_seen k ys)
unfolding is_seen
any-append k [] ys = refl
any-append k (x ∷ xs) ys = ground (arith, any-append k xs ys)

-- `k` stands in the list with at most `n` younger ones behind it.
pub record IsRecent (k : String) (n : ℕ) (ids : List String) : Type 0 where
  pub older : List String
  pub younger : List String
  pub at : ids ≡ older ++ (k ∷ younger)
  pub few : length younger ≤ n

seen_middle : (b : Bool) (k : String) (ys : List String) → (b || is_seen k (k ∷ ys)) ≡ true
unfolding is_seen
seen_middle true k ys = refl
seen_middle false k ys = rw eq_refl

-- Such an identifier is recognised.
pub IsRecent-is_seen :
    (k : String) {n : ℕ} {ids : List String} → IsRecent k n ids → is_seen k ids ≡ true
IsRecent-is_seen k r =
    rw (r.at) (rw (any-append k r.older (k ∷ r.younger)) (seen_middle _ k r.younger))

add-IsRecent :
    (k j : String) (n : ℕ) (ids : List String) → IsRecent k n ids → IsRecent k (suc n) (add j ids)
unfolding add
add-IsRecent k j n ids r = elim (Bool-cases (is_seen j ids)) [
  | inl old ↦
      rw old
        (record { older = r.older; younger = r.younger; at = r.at; few = omega (arith, r.few) })
  | inr new ↦ rw new (record {
    older = r.older;
    younger = r.younger ++ j ∷ [];
    at = rw (r.at) (append_assoc r.older (k ∷ r.younger) (j ∷ []));
    few = omega (arith, r.few, length-append {0} r.younger (j ∷ []));
  })
]

-- The half that a full list drops lies before `k`.
older_long :
    {k : String} (cap n : ℕ) (ids : List String)
    → length ids ≤ suc cap
    → n + cap / 2 ≤ cap
    → (r : IsRecent k n ids) → cap < length ids
    → cap / 2 ≤ length r.older
older_long {k} cap n ids h few r over =
    omega (arith, ap length r.at, length-append {0} r.older (k ∷ r.younger), r.few)

prune-IsRecent :
    (k : String) (cap n : ℕ) (ids : List String)
    → length ids ≤ suc cap
    → n + cap / 2 ≤ cap
    → IsRecent k n ids
    → IsRecent k n (prune cap ids)
unfolding prune
prune-IsRecent k cap n ids h few r = elim (Bool-cases (ltb cap (length ids))) [
  | inl over ↦ rw over (record {
    older = drop (cap / 2) r.older;
    younger = r.younger;
    at = rw (r.at) (
        drop-append (cap / 2) r.older (k ∷ r.younger)
          (older_long cap n ids h few r (ltb→lt _ _ over)));
    few = r.few;
  })
  | inr fits ↦ rw fits r
]

-- Recording another identifier moves `k` back by one place at most, for 2500 of them.
pub record_id-IsRecent :
    (k j : String) (n : ℕ) (ids : List String)
    → length ids ≤ max_seen_ids
    → n < 2_500
    → IsRecent k n ids
    → IsRecent k (suc n) (record_id j ids)
unfolding record_id
record_id-IsRecent k j n ids h few r =
    prune-IsRecent k max_seen_ids (suc n) (add j ids) (omega (arith, length-add j ids))
      (omega arith) (add-IsRecent k j n ids r)

-- The list after a run of messages, the first one first.
unfoldable pub record_ids : List String → List String → List String
record_ids [] ids = ids
record_ids (j ∷ js) ids = record_ids js (record_id j ids)

record_ids-IsRecent :
    (k : String) (js : List String) (n : ℕ) (ids : List String)
    → length ids ≤ max_seen_ids
    → n + length js ≤ 2_500
    → IsRecent k n ids
    → IsRecent k (n + length js) (record_ids js ids)
unfolding record_ids
record_ids-IsRecent k [] n ids h few r = record {
  older = r.older;
  younger = r.younger;
  at = r.at;
  few = omega (arith, r.few);
}
record_ids-IsRecent k (j ∷ js) n ids h few r =
    let more =
      record_ids-IsRecent k js (suc n) (record_id j ids) (length-record_id j ids h) (omega arith)
        (record_id-IsRecent k j n ids h (omega arith) r) in
    record {
      older = more.older;
      younger = more.younger;
      at = more.at;
      few = omega (arith, more.few);
    }

add_new-IsRecent :
    (k : String) (ids : List String) → is_seen k ids ≡ false → IsRecent k 0 (add k ids)
unfolding add
add_new-IsRecent k ids new =
    rw new (record { older = ids; younger = []; at = refl; few = omega arith })

-- A new identifier is the youngest after it was recorded.
pub record_id_new-IsRecent :
    (k : String) (ids : List String)
    → length ids ≤ max_seen_ids
    → is_seen k ids ≡ false
    → IsRecent k 0 (record_id k ids)
unfolding record_id
record_id_new-IsRecent k ids h new =
    prune-IsRecent k max_seen_ids 0 (add k ids) (omega (arith, length-add k ids)) (omega arith)
      (add_new-IsRecent k ids new)

-- Where at most 5000 identifiers are remembered, one that was new when it was recorded is recognised
-- after up to 2500 further messages.
pub record_ids_remembers :
    (k : String) (js ids : List String)
    → length ids ≤ max_seen_ids
    → is_seen k ids ≡ false
    → length js ≤ 2_500
    → is_seen k (record_ids js (record_id k ids)) ≡ true
record_ids_remembers k js ids h new few = IsRecent-is_seen k (
    record_ids-IsRecent k js 0 (record_id k ids) (length-record_id k ids h) (omega arith)
      (record_id_new-IsRecent k ids h new))
