-- ===== src/Protocol/Ctl.antt =====
-- The control messages of src/protocol.rs.
use replstoke.Common.{
  ◌≡◌, [], ◌∷◌, ◌++◌, none, some, arith, Bytes, codes, bytes_eq, if◌then◌else◌, All, All-append,
}
use replstoke.Strings.Utf8.{from_utf8_lossy, IsAscii, from_utf8_lossy-ascii}
use replstoke.Strings.Split.{split_once, split_once-append, Lacks}

-- The bytes of `format!("status {fields}")`.
unfoldable pub ctl_status : Bytes → Bytes
ctl_status fields = codes "status " ++ fields

unfoldable pub ctl_error : Bytes → Bytes
ctl_error message = codes "error " ++ message

pub data Ctl : Type 0 where
  status : Bytes → Ctl
  error : Bytes → Ctl
  other : Bytes → Ctl

unfoldable pub classify : Bytes → Bytes → Bytes → Ctl
classify s kind rest =
    if bytes_eq kind (codes "status")
    then status rest
    else if bytes_eq kind (codes "error")
    then error rest
    else other s

unfoldable pub parse_ctl : Bytes → Ctl
parse_ctl payload =
    let s = from_utf8_lossy payload in
    elim (split_once b' ' s) [ some (kind, rest) ↦ classify s kind rest | none ↦ classify s s [] ]

parse_ctl-append :
    (kind m : Bytes)
    → All IsAscii (kind ++ b' ' ∷ m)
    → Lacks b' ' kind
    → parse_ctl (kind ++ b' ' ∷ m) ≡ classify (kind ++ b' ' ∷ m) kind m
unfolding parse_ctl
parse_ctl-append kind m ascii lacks = rw (
  parse_ctl,
  from_utf8_lossy-ascii (kind ++ b' ' ∷ m) ascii,
  split_once-append b' ' kind m lacks,
  from_utf8_lossy-ascii (kind ++ b' ' ∷ m) ascii,
)

-- A status or error message of ASCII text, further spaces included, is parsed by the client as that
-- kind with that text.
pub parse_ctl-round_trip :
    (m : Bytes)
    → All IsAscii m
    → (parse_ctl (ctl_status m) ≡ status m) × (parse_ctl (ctl_error m) ≡ error m)
unfolding ctl_status ctl_error classify
parse_ctl-round_trip m ascii = (
  parse_ctl-append (codes "status") m (All-append IsAscii (codes "status ") m (omega arith) ascii)
      (omega arith),
  parse_ctl-append (codes "error") m (All-append IsAscii (codes "error ") m (omega arith) ascii)
      (omega arith),
)
