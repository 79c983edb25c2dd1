-- ===== src/Identity/Token.antt =====
-- identity.go: where the token of an API client is looked for in a request.
use onionguard.Base.{
  false, ◌&&◌, not, Option, none, some, [], ◌≡◌, refl, Bytes, codes, same, drop, length,
  if◌then◌else◌,
}
use onionguard.Base.Strings.{trim_space, to_lower}
use onionguard.Store.Memory.Reservations.{has_prefix}
use onionguard.Config.{Config}

-- What the code reads of an `*http.Request`: `Header.Get`, `URL.Query().Get` where there is a URL,
-- `Cookie`, the method and the path.
pub record Request : Type 0 where
  pub header : Bytes → Bytes
  pub query : Option (Bytes → Bytes)
  pub cookie : Bytes → Option Bytes
  pub method : Bytes
  pub path : Bytes

module _ (config : Config) where
  abbrev pub header_name : Bytes
  header_name =
      if same config.api_token_header [] then codes "Authorization" else config.api_token_header

  -- The token that the URL carries, where this is allowed.
  unfoldable pub query_token : Request → Bytes
  query_token r =
      if config.allow_url_token
      then (elim r.query [
        | none ↦ []
        | some get ↦
            if same (get (codes "token")) [] then get (codes "api_key") else get (codes "token")
      ])
      else []

-- The bytes that `to_lower` does not know itself are left to `unicode`.
module _ (unicode : Bytes → Bytes) (config : Config) where
  -- The token in the `Authorization` header; empty where there is none. `authHeader[len(prefix):]` is
  -- `drop`, since a header that starts with the prefix up to case is not shorter, but for letters
  -- outside ASCII.
  unfoldable pub header_token : Bytes → Bytes
  header_token auth_header =
      let prefix = config.api_token_prefix in
      if same prefix []
      then trim_space auth_header
      else if has_prefix (to_lower unicode auth_header) (to_lower unicode prefix)
      then trim_space (drop (length prefix) auth_header)
      else []

  -- The first of three sources that holds a token.
  unfoldable pub extract_api_token_raw : Bytes → Bytes → Bytes → Bytes
  unfolding header_token
  extract_api_token_raw auth_header api_key_header query_token =
      let from_header = header_token auth_header in
      let from_key = trim_space api_key_header in
      if not (same auth_header []) && not (same from_header [])
      then from_header
      else if not (same api_key_header []) && not (same from_key [])
      then from_key
      else if config.allow_url_token && not (same query_token [])
      then trim_space query_token
      else []

  unfoldable pub extract_api_token : Request → Bytes
  unfolding query_token
  extract_api_token r =
      extract_api_token_raw (r.header (header_name config)) [] (query_token config r)

  -- Unless it is allowed, nothing in the URL counts as a token.
  pub extract_api_token-query :
      (r : Request) (other : Option (Bytes → Bytes))
      → config.allow_url_token ≡ false
      → extract_api_token (record r { query = other }) ≡ extract_api_token r
  unfolding extract_api_token query_token
  extract_api_token-query r other h = rw h refl
