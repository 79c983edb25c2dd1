-- ===== src/Admission/States.antt =====
-- admission.go: the states and events of a session and the transitions between them.
use onionguard.Base.{Bool, true, false, ◌||◌, Bytes, same}

-- `type State string`; a stored session may hold any other string.
pub data State : Type 0 where
  new waiting challenge_required admitted expired revoked rotating : State
  other : Bytes → State

-- `type Event string`.
pub data Event : Type 0 where
  new_client wait_elapsed challenge_requested challenge_solved challenge_failed : Event
  expire revoke rotate : Event
  unknown : Bytes → Event

abbrev pub same_state : State → State → Bool
same_state new new = true
same_state waiting waiting = true
same_state challenge_required challenge_required = true
same_state admitted admitted = true
same_state expired expired = true
same_state revoked revoked = true
same_state rotating rotating = true
same_state (other s) (other t) = same s t
same_state _ _ = false

unfoldable pub is_legal_transition : State → Event → State → Bool
is_legal_transition new new_client to =
    same_state to waiting || (same_state to challenge_required || same_state to admitted)
is_legal_transition new expire to = same_state to expired
is_legal_transition new revoke to = same_state to revoked
is_legal_transition waiting wait_elapsed to =
    same_state to challenge_required || same_state to admitted
is_legal_transition waiting challenge_requested to = same_state to challenge_required
is_legal_transition waiting expire to = same_state to expired
is_legal_transition waiting revoke to = same_state to revoked
is_legal_transition challenge_required challenge_solved to = same_state to admitted
is_legal_transition challenge_required challenge_requested to = same_state to challenge_required
is_legal_transition challenge_required challenge_failed to =
    same_state to waiting || same_state to revoked
is_legal_transition challenge_required expire to = same_state to expired
is_legal_transition challenge_required revoke to = same_state to revoked
is_legal_transition admitted rotate to = same_state to rotating || same_state to admitted
is_legal_transition admitted expire to = same_state to expired
is_legal_transition admitted revoke to = same_state to revoked
is_legal_transition rotating rotate to = same_state to admitted
is_legal_transition rotating expire to = same_state to expired
is_legal_transition rotating revoke to = same_state to revoked
is_legal_transition expired revoke to = same_state to revoked
is_legal_transition from event to = false
