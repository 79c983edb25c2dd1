-- ===== src/Http.antt =====
-- middleware/http.go: requests, responses and the cookie of a session (`SessionCookie` of onionguard.go).
-- The security headers, which every response of an engine carries, are in Headers; the hooks for custom
-- pages are not set.
pub mod Redirect
pub mod Challenge
pub mod Serve
pub mod Targets
pub mod Access
use onionguard.Base.{
  ℕ, ◌/◌, ◌==◌, ltb, leb, Bool, true, false, ◌||◌, ◌&&◌, not, Option, none, some, [], ◌∷◌, ◌≡◌, ℤ,
  pos, negsuc, is_pos, ◌+ℤ◌, Bytes, codes, same, arith, if◌then◌else◌,
}
use onionguard.Base.Time.{Time, Duration, is_zero, sub, second}
use onionguard.Base.Strings.{contains}
use onionguard.Errors.{AdmissionInfo, Err, admission}
use onionguard.Errors.ClientSafe.{info, client_safe_error}
use onionguard.Config.{Config}
use onionguard.Session.{Session, is_expired, is_revoked}
use onionguard.Challenge.{CaptchaChallenge}
use onionguard.Identity.{ClientIdentity}
use onionguard.Identity.Token.{Request}
use Redirect.{root, sanitize_redirect_target}

-- What `ParseForm` returns for a body that it cannot read: one that is too large, or any other.
pub data FormError : Type 0 where
  too_large malformed : FormError

-- `form` is `FormValue`, `form_error` what `ParseForm` returns where the handler calls it.
pub record HttpRequest : Type 0 where
  pub base : Request
  pub form : Bytes → Bytes
  pub form_error : Option FormError
  pub request_uri : Bytes
  pub content_length : ℤ

-- `MaxAge` 0 is a cookie without the attribute; a negative one deletes the cookie. SameSite and the
-- Expires of a deleted cookie are left out.
pub record Cookie : Type 0 where
  pub name : Bytes
  pub value : Bytes
  pub path : Bytes
  pub domain : Bytes
  pub http_only : Bool
  pub secure : Bool
  pub max_age : ℤ

-- What the client gets, or that the next handler runs, with its identity and its session.
pub data Body : Type 0 where
  next : ClientIdentity → Option Session → Body
  error_json : (code message : Bytes) → Body
  wait_page : Duration → Body
  -- A page without content.
  blank : Body
  challenge_page challenge_json : CaptchaChallenge → (target : Bytes) → Body
  redirect success_page admitted_json : (target : Bytes) → Body

-- `retry_after` is the Retry-After header, `allow` the Allow header. Content-Type and Cache-Control are
-- left out.
pub record Response : Type 0 where
  pub status : ℕ
  pub retry_after : Option ℕ
  pub cookie : Option Cookie
  pub allow : Bytes
  pub body : Body

abbrev pub respond : ℕ → Body → Response
respond status body = record {
  status = status;
  retry_after = none;
  cookie = none;
  allow = [];
  body = body;
}

-- `int(d.Seconds())`, at least 1, for a positive `d`; float64 is exact for waits of up to 48 days.
abbrev pub retry_after_header : Duration → Option ℕ
retry_after_header (pos n) =
    if n == 0 then none else some (if ltb (n / second) 1 then 1 else n / second)
retry_after_header (negsuc n) = none

-- `writeJSONError`
unfoldable pub write_json_error : ℕ → (code message : Bytes) → Duration → Response
write_json_error status code message retry = record (respond status (error_json code message)) {
  retry_after = retry_after_header retry;
}

-- `renderCustomHTML`, for the page of the wait room.
unfoldable pub render_wait_page : Duration → Response
render_wait_page wait = record (respond 429 (wait_page wait)) {
  retry_after = retry_after_header wait;
}

abbrev pub safe_info : Option Err → AdmissionInfo
safe_info (some (admission i cause)) = i
safe_info _ = info 500 [] []

-- `writeMappedError`, for an error: an `*AdmissionError` always comes of it.
unfoldable pub write_mapped_error : Err → Duration → Response
unfolding client_safe_error write_json_error
write_mapped_error e retry =
    let adm = safe_info (client_safe_error (some e)) in
    write_json_error adm.status_code adm.code adm.message
      (if is_pos retry then retry else adm.retry_after)

abbrev pub accepts_html : HttpRequest → Bool
accepts_html r = contains (codes "text/html") (r.base.header (codes "Accept"))

-- `int(sess.ExpiresAt.Sub(now).Seconds())`, if positive.
abbrev pub age_left : Duration → ℤ
age_left (pos n) = pos (n / second)
age_left (negsuc n) = pos 0

-- `SessionCookie`
unfoldable pub session_cookie : Config → Time → Option Session → Option Cookie
session_cookie config now none = none
session_cookie config now (some sess) =
    if same sess.session_id []
    then none
    else (let dead = is_revoked sess || is_expired sess now in
        some (record {
          name = config.session_cookie_name;
          value = if dead then [] else sess.session_id;
          path = config.cookie_path;
          domain = config.cookie_domain;
          http_only = config.cookie_http_only;
          secure = config.cookie_secure;
          max_age =
              if dead
              then negsuc 0
              else if is_zero sess.expires_at
              then pos 0
              else age_left (sub sess.expires_at now);
        }))

-- The target in a query or a form: `r`, or else `target`.
abbrev pub target_in : (Bytes → Bytes) → Bytes
target_in get =
    if same (get (codes "r")) []
    then sanitize_redirect_target (get (codes "target"))
    else sanitize_redirect_target (get (codes "r"))
