-- ===== src/Session.antt =====
-- session.go: sessions, their ids, and how they are stored.
pub mod Rotate
pub mod Renewal
use onionguard.Base.{
  ℕ, ◌*◌, ◌/◌, ◌%◌, leb, ◌==◌, suc, Bool, true, false, ◌||◌, ◌&&◌, not, Option, none, some, List,
  [], ◌∷◌, ◌++◌, ℤ, pos, is_pos, Bytes, codes, same, length, if◌then◌else◌,
}
use mathlib.Core.Option
use onionguard.Base.Time.{Time, Duration, is_zero, before, sub, passed, second}
use onionguard.Errors.{
  Err, sentinel, Result, ok, err, fail, is, not_found, store_closed, invalid_session, invalid_ttl,
}
use onionguard.Env.{Env}
use onionguard.Admission.States.{State, new, expired, revoked, same_state}

-- identity.go: `type IdentityKind int`.
pub data IdentityKind : Type 0 where
  authenticated api_token anonymous anonymous_new : IdentityKind
  other_kind : ℤ → IdentityKind

pub record Session : Type 0 where
  pub session_id : Bytes
  pub kind : IdentityKind
  pub state : State
  pub first_seen : Time
  pub expires_at : Time
  pub absolute_expires_at : Time
  pub renewal_count : ℤ
  pub max_renewals : ℤ
  pub created_at : Time
  pub last_seen_at : Time
  pub challenge_id : Bytes

abbrev pub session_id_string_len : ℕ
session_id_string_len = 43

abbrev pub session_id_raw_bytes : ℕ
session_id_raw_bytes = 32

-- The alphabet of `base64.RawURLEncoding`.
unfoldable pub is_raw_url : ℕ → Bool
is_raw_url c =
    (leb b'A' c && leb c b'Z')
    || ((leb b'a' c && leb c b'z') || ((leb b'0' c && leb c b'9') || (c == b'-' || c == b'_')))

-- The characters that the decoder reads: it skips line breaks and stops at any other character.
unfoldable pub sextets : Bytes → Option ℕ
unfolding is_raw_url
sextets [] = some 0
sextets (c ∷ s) =
    let rest = sextets s in
    if c == 10 || c == 13 then rest else if is_raw_url c then Option.map suc rest else none

-- The number of bytes that `base64.RawURLEncoding.DecodeString` returns; `none` is its error.
unfoldable pub decoded_len : Bytes → Option ℕ
unfolding sextets
decoded_len s = elim (sextets s) [
  | none ↦ none
  | some n ↦ if n % 4 == 1 then none else some (n * 6 / 8)
]

unfoldable pub validate_session_id : Bytes → Option Err
unfolding decoded_len
validate_session_id id =
    if not (length id == session_id_string_len)
    then some (sentinel invalid_session)
    else (elim (decoded_len id) [
      | none ↦ some (sentinel invalid_session)
      | some n ↦ if n == session_id_raw_bytes then none else some (sentinel invalid_session)
    ])

unfoldable pub is_expired : Session → Time → Bool
is_expired sess now = same_state sess.state expired || passed now sess.expires_at

unfoldable pub is_revoked : Session → Bool
is_revoked sess = same_state sess.state revoked

abbrev pub session_key : Bytes → Bytes
session_key session_id = codes "session:" ++ session_id

unfoldable pub remaining_ttl : Session → Time → Duration → Duration
remaining_ttl sess now fallback =
    if not (is_zero sess.expires_at) && is_pos (sub sess.expires_at now)
    then sub sess.expires_at now
    else if not (is_zero sess.absolute_expires_at) && is_pos (sub sess.absolute_expires_at now)
    then sub sess.absolute_expires_at now
    else if is_pos fallback
    then fallback
    else pos second

-- The session of a visitor who has just come, under an id.
abbrev pub fresh_session : Bytes → Time → ℤ → Session
fresh_session id now max_renewals = record {
  session_id = id;
  kind = anonymous;
  state = new;
  first_seen = now;
  expires_at = 0;
  absolute_expires_at = 0;
  renewal_count = pos 0;
  max_renewals = max_renewals;
  created_at = now;
  last_seen_at = now;
  challenge_id = [];
}

module _ {C : Type 0} (env : Env Session C) where
  open env use {
    S, has_store, get, set, delete, marshal_session, unmarshal_session, generate_session_id,
  }

  unfoldable pub new_session : Time → ℤ → S → Result Session × S
  new_session now max_renewals s =
      let (r, s') = generate_session_id s in
      (elim r [ err e ↦ err e | ok id ↦ ok (fresh_session id now max_renewals) ], s')

  unfoldable pub save_session : Session → Duration → S → Option Err × S
  save_session sess ttl s =
      if not has_store
      then (some (sentinel store_closed), s)
      else if same sess.session_id []
      then (some (sentinel invalid_session), s)
      else if not (is_pos ttl)
      then (some (sentinel invalid_ttl), s)
      else (elim (marshal_session sess) [
        | err e ↦ (some e, s)
        | ok d ↦ set (session_key sess.session_id) d ttl s
      ])

  -- What `GetSession` makes of the store's answer.
  abbrev decode_session : Result Bytes → Result Session
  decode_session (err e) = if is e not_found then fail invalid_session else err e
  decode_session (ok d) = unmarshal_session d

  unfoldable pub get_session : Bytes → S → Result Session × S
  get_session session_id s =
      if not has_store then (fail store_closed, s) else (elim (validate_session_id session_id) [
        | some e ↦ (err e, s)
        | none ↦ let (r, s') = get (session_key session_id) s in (decode_session r, s')
      ])

  unfoldable pub delete_session : Bytes → S → Option Err × S
  delete_session session_id s =
      if not has_store
      then (some (sentinel store_closed), s)
      else if same session_id []
      then (none, s)
      else delete (session_key session_id) s
