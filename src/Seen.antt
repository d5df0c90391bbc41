-- ===== src/Seen.antt =====
-- The identifiers that a consumer remembers, the same code in three services: `_record` and
-- `_seen_command_ids` of services/player/player/command_handler.py, and `_record_id` and `_seen_ids`
-- of decision_optimizer/signal_consumer.py and audience_state/observation_consumer.py.
-- The dictionaries hold True at every key, so the state is the list of keys in the order of insertion.
pub mod Window
use adaptive_advertisement.Common.{
  ℕ, ◌/◌, String, Bool, List, [], ◌∷◌, ◌++◌, ltb, if◌then◌else◌, length, drop, any, str_eq,
}

abbrev pub max_seen_ids : ℕ
max_seen_ids = 5_000

-- `message_id in self._seen_ids`
unfoldable pub is_seen : String → List String → Bool
is_seen k ids = any (λ j. str_eq j k) ids

-- `self._seen_ids[message_id] = True`
unfoldable pub add : String → List String → List String
unfolding is_seen
add k ids = if is_seen k ids then ids else ids ++ k ∷ []

-- Past the cap the oldest half of the cap is dropped.
unfoldable pub prune : ℕ → List String → List String
prune cap ids = if ltb cap (length ids) then drop (cap / 2) ids else ids

unfoldable pub record_id : String → List String → List String
record_id k ids = prune max_seen_ids (add k ids)
