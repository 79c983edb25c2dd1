-- ===== src/Challenge.antt =====
-- challenge.go: the CAPTCHA challenges, `Issue`, `Validate` and `Get`; `randomCaptchaAnswer` of
-- captcha.go. The image, the hash and the normal form of an answer are those of `Craft`.
pub mod Answer
pub mod Solved
use onionguard.Base.{
  ℕ, zero, suc, ◌*◌, Bool, true, false, ◌||◌, ◌&&◌, not, Option, none, some, List, [], ◌∷◌, ◌++◌, ℤ,
  pos, is_pos, ltb_ℤ, leb_ℤ, ◌+ℤ◌, wrap64, Bytes, codes, same, length, ◌==◌, if◌then◌else◌,
}
use onionguard.Base.Time.{Time, Duration, sub, add, before, is_zero, minute}
use onionguard.Errors.{
  Err, sentinel, Result, ok, err, fail, is, not_found, store_closed, session_expired,
  invalid_transition, invalid_value, value_too_large, challenge_not_found, challenge_invalid,
  challenge_expired, max_attempts_exceeded,
}
use onionguard.Env.{Env}
use onionguard.Config.{Config, CaptchaConfig}
use onionguard.Session.{
  Session, get_session, save_session, validate_session_id, is_expired, remaining_ttl,
}
use onionguard.Lock.{with_session_lock}
use onionguard.Admission.States.{waiting, admitted, same_state}
use onionguard.Admission.States as States
use onionguard.Admission.{capped, session_capacity_key}

pub record StoredChallenge : Type 0 where
  pub id : Bytes
  pub session_id : Bytes
  pub answer_hash : Bytes
  pub created_at : Time
  pub expires_at : Time
  pub attempts : ℤ
  pub max_attempts : ℤ
  pub image_data_uri : Bytes

-- What the client gets: no hash of the answer.
pub record CaptchaChallenge : Type 0 where
  pub id : Bytes
  pub session_id : Bytes
  pub created_at : Time
  pub expires_at : Time
  pub attempts : ℤ
  pub max_attempts : ℤ
  pub image_data_uri : Bytes

-- `sha256.Sum256`, `strings.ToUpper(strings.TrimSpace(…))`, and the PNG image of an answer as a data URI.
pub record Craft (S : Type 0) : Type 0 where
  pub sha256 : Bytes → Bytes
  pub normalize : Bytes → Bytes
  pub captcha_image : Bytes → CaptchaConfig → S → Result Bytes × S

abbrev pub challenge_key : Bytes → Bytes
challenge_key id = codes "challenge:" ++ id

abbrev public : StoredChallenge → CaptchaChallenge
public st = record {
  id = st.id;
  session_id = st.session_id;
  created_at = st.created_at;
  expires_at = st.expires_at;
  attempts = st.attempts;
  max_attempts = st.max_attempts;
  image_data_uri = st.image_data_uri;
}

-- `alphabet[n]`. Out of range Go panics; `rand.Int` stays in range.
unfoldable pub letter : Bytes → ℕ → ℕ
letter [] n = 0
letter (c ∷ cs) zero = c
letter (c ∷ cs) (suc n) = letter cs n

module _ (env : Env Session StoredChallenge) (config : Config) (craft : Craft env.S) where
  open env use {
    S, now, has_store, has_reservations, get, set, delete, reserve_session, generate_session_id,
    random_below, marshal_challenge, unmarshal_challenge,
  }

  -- The loop of `randomCaptchaAnswer`.
  unfoldable pub random_letters : Bytes → ℕ → S → Result Bytes × S
  random_letters alphabet zero s = (ok [], s)
  random_letters alphabet (suc n) s =
      let (r, s₁) = random_below (length alphabet) s in
      elim r [
        | err e ↦ (err e, s₁)
        | ok i ↦
            let (rest, s₂) = random_letters alphabet n s₁ in
            (elim rest [ err e ↦ err e | ok cs ↦ ok (letter alphabet i ∷ cs) ], s₂)
      ]

  unfoldable pub random_captcha_answer : Bytes → ℤ → S → Result Bytes × S
  random_captcha_answer alphabet (pos n) s =
      if n == 0 || length alphabet == 0
      then (fail invalid_value, s)
      else random_letters alphabet n s
  random_captcha_answer alphabet _ s = (fail invalid_value, s)

  unfoldable pub load_public_challenge : Bytes → Time → S → Result CaptchaChallenge × S
  load_public_challenge id t s =
      let (r, s₁) = get (challenge_key id) s in
      elim r [
        | err e ↦ (err e, s₁)
        | ok d ↦ elim (unmarshal_challenge d) [
          | err e ↦ (err e, s₁)
          | ok st ↦
              if not (before t st.expires_at)
              then (fail challenge_expired, s₁)
              else (ok (public st), s₁)
        ]
      ]

  -- `Issue`, from the marshalled challenge on.
  unfoldable pub store_challenge :
      Session → StoredChallenge → Bytes → Time → S → Result CaptchaChallenge × S
  store_challenge sess st d t s =
      let ttl =
        if not (is_zero sess.expires_at) && before sess.expires_at st.expires_at
        then sub sess.expires_at t
        else sub st.expires_at t in
      if ltb_ℤ config.max_value_bytes (pos (length d))
      then (fail value_too_large, s)
      else if not (is_pos ttl)
      then (fail session_expired, s)
      else (let (failed, s₁) = set (challenge_key st.id) d ttl s in
          elim failed [
            | some e ↦ (err e, s₁)
            | none ↦
                let sess = record sess { challenge_id = st.id } in
                let sttl = remaining_ttl sess t ttl in
                let (unsaved, s₂) =
                  save_session env sess (if ltb_ℤ ttl sttl then ttl else sttl) s₁ in
                elim unsaved [
                  | some e ↦ (err e, (delete (challenge_key st.id) s₂).1)
                  | none ↦ (ok (public st), s₂)
                ]
          ])

  -- `Issue`, where no challenge is open.
  unfoldable pub issue_new : Bytes → Session → Time → S → Result CaptchaChallenge × S
  issue_new session_id sess t s =
      let (answer, s₁) = random_captcha_answer config.captcha.alphabet config.captcha.length s in
      elim answer [
        | err e ↦ (err e, s₁)
        | ok text ↦
            let (fresh, s₂) = generate_session_id s₁ in
            elim fresh [
              | err e ↦ (err e, s₂)
              | ok id ↦
                  let (image, s₃) = craft.captcha_image text config.captcha s₂ in
                  elim image [
                    | err e ↦ (err e, s₃)
                    | ok uri ↦
                        let st : StoredChallenge = record {
                          id = id;
                          session_id = session_id;
                          answer_hash = craft.sha256 text;
                          created_at = t;
                          expires_at = add t config.captcha.ttl;
                          attempts = pos 0;
                          max_attempts = config.captcha.max_attempts;
                          image_data_uri = uri;
                        } in
                        elim (marshal_challenge st) [
                          | err e ↦ (err e, s₃)
                          | ok d ↦ store_challenge sess st d t s₃
                        ]
                  ]
            ]
      ]

  -- `Issue` under the lock, with the session read.
  unfoldable pub issue_body : Bytes → Session → S → Result CaptchaChallenge × S
  issue_body session_id sess s =
      if not (same_state sess.state States.challenge_required)
      then (fail invalid_transition, s)
      else (let (t, s₁) = now s in
          if is_expired sess t
          then (fail session_expired, s₁)
          else if same sess.challenge_id []
          then issue_new session_id sess t s₁
          else (let (r, s₂) = load_public_challenge sess.challenge_id t s₁ in
              elim r [ ok ch ↦ (ok ch, s₂) | err e ↦ issue_new session_id sess t s₂ ]))

  unfoldable pub issue_locked : Bytes → S → Result CaptchaChallenge × S
  issue_locked session_id s =
      let (r, s₁) = get_session env session_id s in
      elim r [ err e ↦ (err e, s₁) | ok sess ↦ issue_body session_id sess s₁ ]

  -- `Issue`. The service is not nil.
  unfoldable pub issue : Bytes → S → Result CaptchaChallenge × S
  issue session_id s =
      if not has_store then (fail store_closed, s) else (elim (validate_session_id session_id) [
        | some e ↦ (err e, s)
        | none ↦ with_session_lock env session_id (issue_locked session_id) s
      ])

  -- `Get` of the service.
  unfoldable pub current_challenge : Bytes → S → Result CaptchaChallenge × S
  current_challenge session_id s =
      if not has_store then (fail store_closed, s) else (elim (validate_session_id session_id) [
        | some e ↦ (err e, s)
        | none ↦
            let (r, s₁) = get_session env session_id s in
            elim r [
              | err e ↦ (err e, s₁)
              | ok sess ↦
                  if same sess.challenge_id []
                  then (fail challenge_not_found, s₁)
                  else (let (t, s₂) = now s₁ in load_public_challenge sess.challenge_id t s₂)
            ]
      ])
