-- ===== src/Agent/Resolve.antt =====
-- agent/src/main.c: the address of the server (`resolve_addr`), as in the builds that are not static. `getaddrinfo` of the
-- C library is an argument, from the name and the port as strings to the addresses, `none` where it fails.
use trace_fox.Base.{
  ℕ, zero, suc, ◌+◌, ◌-◌, ◌/◌, ◌%◌, Bool, ◌&&◌, ◌||◌, not, Option, none, some, List, [], ◌∷◌, ◌++◌,
  ltb, ◌==◌, if◌then◌else◌, length, replicate,
}
use trace_fox.Base.CString.{c_str}

-- An address of the list: its family, and its bytes, `ai_addrlen` of them.
pub record AddrInfo : Type 0 where
  pub ai_family : ℕ
  pub ai_addr : List ℕ

abbrev pub Getaddrinfo : Type 0
Getaddrinfo = List ℕ → List ℕ → Option (List AddrInfo)

-- `dest_addr`, `dest_addr_len` and the family of the socket.
pub record Destination : Type 0 where
  pub addr : List ℕ
  pub addr_len : ℕ
  pub family : ℕ

abbrev pub af_inet : ℕ
af_inet = 2

abbrev pub af_inet6 : ℕ
af_inet6 = 10

abbrev pub sockaddr_storage_size : ℕ
sockaddr_storage_size = 128

-- The decimal digits of a number of at most `fuel` digits.
unfoldable pub decimal : ℕ → ℕ → List ℕ
decimal zero n = []
decimal (suc fuel) n =
    let front = decimal fuel (n / 10) in
    if ltb n 10 then (b'0' + n) ∷ [] else front ++ (b'0' + n % 10) ∷ []

-- `snprintf(port_buf, 6, "%u", port)`: a port has at most five digits.
unfoldable pub port_buf : ℕ → List ℕ
unfolding decimal
port_buf port = decimal 5 port

abbrev pub is_skipped : AddrInfo → Bool
is_skipped a =
    (not (a.ai_family == af_inet) && not (a.ai_family == af_inet6))
    || ltb sockaddr_storage_size (length a.ai_addr)

-- The loop over the list: the first address that the agent can use.
unfoldable pub first_address : List AddrInfo → Option Destination
first_address [] = none
first_address (a ∷ more) =
    let rest = first_address more in
    let room = sockaddr_storage_size - length a.ai_addr in
    if is_skipped a
    then rest
    else some (record {
      addr = a.ai_addr ++ replicate room 0;
      addr_len = length a.ai_addr;
      family = a.ai_family;
    })

unfoldable pub resolve_addr : Getaddrinfo → List ℕ → ℕ → Option Destination
unfolding port_buf first_address
resolve_addr getaddrinfo host port = elim (getaddrinfo (c_str host) (port_buf port)) [
  | none ↦ none
  | some results ↦ first_address results
]
