-- ===== src/Headers.antt =====
-- security.go: the security headers of a response. A header is a list of values under its canonical
-- name.
use onionguard.Base.{
  ◌≡◌, ◌&&◌, not, Option, none, some, List, [], ◌∷◌, ◌++◌, Bytes, codes, same, same_iff, Dict,
  lookup, insert, lookup-insert, arith, if◌then◌else◌,
}
use onionguard.Base.Strings.{trim_space}
use onionguard.Settings.{
  HeaderPolicy, preserve, override, merge, other_policy, SecurityHeadersConfig,
}

abbrev pub Header : Type 0
Header = Dict (List Bytes)

abbrev first : Option (List Bytes) → Bytes
first none = []
first (some []) = []
first (some (v ∷ vs)) = v

-- `h.Get(name)`
unfoldable pub header_get : Bytes → Header → Bytes
header_get name h = first (lookup name h)

-- `h.Set(name, value)`
unfoldable pub header_set : Bytes → Bytes → Header → Header
header_set name value h = insert name (value ∷ []) h

abbrev pub csp : Bytes
csp = codes "Content-Security-Policy"

-- The closure `set` for a value that is not empty, by the policy.
unfoldable pub set_by : HeaderPolicy → Bytes → Bytes → Header → Header
unfolding header_get header_set
set_by override name value h = header_set name value h
set_by merge name value h =
    let existing = header_get name h in
    if not (same existing []) && (same name csp && not (same existing value))
    then header_set name (existing ++ codes "; " ++ trim_space value) h
    else if same existing []
    then header_set name value h
    else h
set_by _ name value h = if same (header_get name h) [] then header_set name value h else h

unfoldable pub set_header : HeaderPolicy → Bytes → Bytes → Header → Header
unfolding set_by
set_header policy name value h = if same value [] then h else set_by policy name value h

unfoldable pub apply_security_headers : SecurityHeadersConfig → Header → Header
unfolding set_header
apply_security_headers cfg h =
    let h₁ = set_header cfg.policy csp cfg.content_security_policy h in
    let h₂ = set_header cfg.policy (codes "Referrer-Policy") cfg.referrer_policy h₁ in
    let h₃ = set_header cfg.policy (codes "X-Frame-Options") cfg.x_frame_options h₂ in
    set_header cfg.policy (codes "X-Content-Type-Options") cfg.x_content_type_options h₃

unfoldable pub apply_no_store : Header → Header
unfolding header_set
apply_no_store h =
    header_set (codes "Pragma") (codes "no-cache")
      (header_set (codes "Cache-Control") (codes "no-store") h)

header_get-header_set :
    (name j value : Bytes) (h : Header)
    → header_get j (header_set name value h) ≡ (if same name j then value else header_get j h)
unfolding header_get header_set
header_get-header_set name j value h = rw (lookup-insert name j (value ∷ []) h) (ground arith)

-- What a header shows once `set` was called for it.
abbrev pub combine : HeaderPolicy → Bytes → Bytes → Bytes → Bytes
combine override name value existing = if same value [] then existing else value
combine merge name value existing =
    if same value []
    then existing
    else if not (same existing []) && (same name csp && not (same existing value))
    then existing ++ codes "; " ++ trim_space value
    else if same existing []
    then value
    else existing
combine _ name value existing =
    if same value [] then existing else if same existing [] then value else existing

header_get-set_header :
    (policy : HeaderPolicy) (name j value : Bytes) (h : Header)
    → header_get j (set_header policy name value h)
      ≡ (if same name j then combine policy name value (header_get name h) else header_get j h)
unfolding set_header set_by
header_get-set_header override name j value h =
    ground (arith, header_get-header_set name j value h, same_iff name j)
header_get-set_header merge name j value h = ground (
  arith,
  header_get-header_set name j value h,
  header_get-header_set name j (header_get name h ++ codes "; " ++ trim_space value) h,
  same_iff name j,
)
header_get-set_header preserve name j value h =
    ground (arith, header_get-header_set name j value h, same_iff name j)
header_get-set_header (other_policy n) name j value h =
    ground (arith, header_get-header_set name j value h, same_iff name j)

-- A header that the configuration sets shows, after `apply_security_headers`, what the policy makes of
-- the value and of what it showed.
abbrev pub Shows : SecurityHeadersConfig → Header → Bytes → Bytes → Type 0
Shows cfg h name value =
    header_get name (apply_security_headers cfg h)
    ≡ combine cfg.policy name value (header_get name h)

-- After applySecurityHeaders each of its four headers shows what the policy makes of the configured
-- value and of what it showed before: an override takes a value that is not empty; otherwise one
-- that was there stays, but that a merge appends to a Content-Security-Policy that differs.
pub header_get-apply_security_headers :
    (cfg : SecurityHeadersConfig) (h : Header)
    → Shows cfg h csp cfg.content_security_policy
      × Shows cfg h (codes "Referrer-Policy") cfg.referrer_policy
      × Shows cfg h (codes "X-Frame-Options") cfg.x_frame_options
      × Shows cfg h (codes "X-Content-Type-Options") cfg.x_content_type_options
unfolding apply_security_headers same
header_get-apply_security_headers cfg h = (
  simp header_get-set_header,
  simp header_get-set_header,
  simp header_get-set_header,
  simp header_get-set_header,
)
