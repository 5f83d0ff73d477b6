-- ===== src/Node/Url.antt =====
-- `NormalizeRelayURL` of internal/p2p/peerstore.go. The packages net/url and strings are parameters.
use runeverything.Base.{
  Bool, not, ◌&&◌, ◌||◌, Option, none, some, [], ◌==◌, if◌then◌else◌, length, take,
}
use runeverything.Base.Bytes.{Bytes, bytes_eq, codes}

-- The parts of a `url.URL` that the source reads or sets; `rest` stands for the others.
pub record Url : Type 0 where
  pub scheme : Bytes
  pub host : Bytes
  pub path : Bytes
  pub raw_query : Bytes
  pub fragment : Bytes
  pub rest : Bytes

-- `url.Parse`, `URL.String` and `strings.TrimSpace`.
pub record Urls : Type 0 where
  pub parse : Bytes → Option Url
  pub print : Url → Bytes
  pub trim_space : Bytes → Bytes

pub data UrlError : Type 0 where
  unparsable invalid_scheme invalid_host : UrlError

pub data Checked : Type 0 where
  valid : Bytes → Checked
  invalid : UrlError → Checked

abbrev pub has_prefix : Bytes → Bytes → Bool
has_prefix s prefix = bytes_eq (take (length prefix) s) prefix

abbrev pub is_ws : Bytes → Bool
is_ws scheme = bytes_eq scheme (codes "ws")

abbrev pub is_wss : Bytes → Bool
is_wss scheme = bytes_eq scheme (codes "wss")

unfoldable pub relay_path : Bytes → Bytes
relay_path path =
    if length path == 0 || (bytes_eq path (codes "/") || bytes_eq path (codes "/ws"))
    then codes "/re2"
    else if not (has_prefix path (codes "/re2"))
    then codes "/re2"
    else path

unfoldable pub canonical : Url → Url
unfolding relay_path
canonical u = record u { path = relay_path u.path; raw_query = []; fragment = [] }

unfoldable pub normalize_url : Urls → Option Url → Checked
unfolding canonical
normalize_url urls none = invalid unparsable
normalize_url urls (some u) =
    if not (is_wss u.scheme) && not (is_ws u.scheme)
    then invalid invalid_scheme
    else if length u.host == 0
    then invalid invalid_host
    else valid (urls.print (canonical u))

unfoldable pub normalize_relay_url : Urls → Bytes → Checked
unfolding normalize_url
normalize_relay_url urls raw = normalize_url urls (urls.parse (urls.trim_space raw))
