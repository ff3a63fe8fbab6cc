-- ===== src/Address.antt =====
-- Host and port texts: net.SplitHostPort and strings.TrimSpace, which three parts of the program
-- use, and clientIP of internal/handler/handler.go, normalizeHost of cmd/agent/main.go and
-- normalizeAddr of cmd/server/main.go. TrimSpace is that of ASCII texts.
pub mod Splitting
pub mod Normal
use metrify.Base.{
  ℕ, Bytes, Bool, false, ◌&&◌, ◌||◌, not, Option, none, some, [], ◌∷◌, ◌++◌, codes, nat_eq, leb,
  bytes_eq, is_empty, if◌then◌else◌,
}
use mathlib.Core.List.{reverse}
use metrify.Http.{Request, header_get}

abbrev pub has : ℕ → Bytes → Bool
has c [] = false
has c (a ∷ s) = nat_eq a c || has c s

abbrev prepend : ℕ → Option (Bytes × Bytes) → Option (Bytes × Bytes)
prepend a none = none
prepend a (some (front, rest)) = some (a ∷ front, rest)

-- Before and after the first `c`.
abbrev pub split_first : ℕ → Bytes → Option (Bytes × Bytes)
split_first c [] = none
split_first c (a ∷ s) = if nat_eq a c then some ([], s) else prepend a (split_first c s)

abbrev or_here : Bool → ℕ → Bytes → Option (Bytes × Bytes) → Option (Bytes × Bytes)
or_here same a s none = if same then some ([], s) else none
or_here same a s (some (front, rest)) = some (a ∷ front, rest)

-- Before and after the last `c`.
abbrev pub split_last : ℕ → Bytes → Option (Bytes × Bytes)
split_last c [] = none
split_last c (a ∷ s) = or_here (nat_eq a c) a s (split_last c s)

-- After the "]" of a host in brackets: a colon, and a port with no other colon.
abbrev pub port_after : Bytes → Option Bytes
port_after [] = none
port_after (a ∷ port) =
    if nat_eq a b':' && not (has b':' port) && not (has b']' port) then some port else none

abbrev pub with_host : Bytes → Option Bytes → Option (Bytes × Bytes)
with_host host none = none
with_host host (some port) = some (host, port)

abbrev pub split_bracketed : Option (Bytes × Bytes) → Bytes → Option (Bytes × Bytes)
split_bracketed none rest = none
split_bracketed (some (host, after)) rest =
    if has b'[' rest then none else with_host host (port_after after)

abbrev pub split_plain : Option (Bytes × Bytes) → Option (Bytes × Bytes)
split_plain none = none
split_plain (some (host, port)) =
    if has b':' host || has b'[' host || has b']' host || has b'[' port || has b']' port
    then none
    else some (host, port)

-- net.SplitHostPort: `none` is its error.
unfoldable pub split_host_port : Bytes → Option (Bytes × Bytes)
split_host_port [] = none
split_host_port (a ∷ s) =
    if nat_eq a b'['
    then split_bracketed (split_first b']' s) s
    else split_plain (split_last b':' (a ∷ s))

abbrev is_space : ℕ → Bool
is_space c = nat_eq c b' ' || leb 9 c && leb c 13

abbrev trim_left : Bytes → Bytes
trim_left [] = []
trim_left (a ∷ s) = if is_space a then trim_left s else a ∷ s

unfoldable pub trim_space : Bytes → Bytes
trim_space s = reverse (trim_left (reverse (trim_left s)))

-- strings.Split(s, ",")[0]
abbrev first_part : Bytes → Option (Bytes × Bytes) → Bytes
first_part s none = s
first_part s (some (front, rest)) = front

abbrev host_or : Bytes → Option (Bytes × Bytes) → Bytes
host_or addr none = addr
host_or addr (some (host, port)) = if is_empty host then addr else host

unfoldable pub client_ip : Request → Bytes
unfolding header_get trim_space split_host_port
client_ip r =
    let xff = header_get r.header "X-Forwarded-For" in
    if is_empty xff
    then host_or (trim_space r.remote_addr) (split_host_port (trim_space r.remote_addr))
    else trim_space (first_part xff (split_first b',' xff))

abbrev pub local_host : Bytes → Option (Bytes × Bytes) → Bytes
local_host host none = host
local_host host (some (h, p)) = if is_empty h then codes "localhost:" ++ p else host

unfoldable pub normalize_host : Bytes → Bytes
unfolding split_host_port
normalize_host host = local_host host (split_host_port host)

abbrev pub any_host : Bytes → Option (Bytes × Bytes) → Bytes
any_host addr none = addr
any_host addr (some (h, p)) =
    if bytes_eq h (codes "localhost") || is_empty h then b':' ∷ p else addr

unfoldable pub normalize_addr : Bytes → Bytes
unfolding split_host_port
normalize_addr addr = any_host addr (split_host_port addr)
