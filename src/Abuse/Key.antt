-- ===== src/Abuse/Key.antt =====
-- crates/weaver-abuse/src/key.rs: the keys that a caller is charged under. An address is its number,
-- of 32 or 128 bits; clearing the low bits of it is a division and a multiplication.
use Prim.Native.Nat.{bit_xor}
use tunnel_weaver.Base.{
  ℕ, zero, suc, ◌-◌, ◌*◌, ◌/◌, ◌%◌, ◌^◌, ◌==◌, if◌then◌else◌, List, [], ◌∷◌, Option, none, some,
  u64,
}

pub data KeyKind : Type 0 where
  peer_host peer_network : KeyKind

unfoldable pub code : KeyKind → ℕ
code KeyKind.peer_host = 0
code KeyKind.peer_network = 1

pub record Key : Type 0 where
  pub kind : KeyKind
  pub id : ℕ  -- u64

pub record Fingerprint : Type 0 where
  pub keys : List Key

-- `keys.iter().copied().find(|key| key.kind == kind)`.
abbrev pub find_kind : KeyKind → List Key → Option Key
find_kind kind [] = none
find_kind kind (key ∷ keys) = if code key.kind == code kind then some key else find_kind kind keys

unfoldable pub get : Fingerprint → KeyKind → Option Key
unfolding code
get fp kind = find_kind kind fp.keys

pub data IpAddr : Type 0 where
  v4 : ℕ → IpAddr
  v6 : ℕ → IpAddr

abbrev pub fnv_offset : ℕ
fnv_offset = 0xcbf2_9ce4_8422_2325

abbrev pub fnv_prime : ℕ
fnv_prime = 0x0000_0100_0000_01b3

unfoldable pub fnv1a_from : ℕ → List ℕ → ℕ
fnv1a_from hash [] = hash
fnv1a_from hash (byte ∷ bytes) = fnv1a_from (u64 (bit_xor hash byte * fnv_prime)) bytes

unfoldable pub fnv1a : List ℕ → ℕ
unfolding fnv1a_from
fnv1a bytes = fnv1a_from fnv_offset bytes

-- The octets of an address of `n` bytes, the highest first.
unfoldable pub octets : ℕ → ℕ → List ℕ
octets zero addr = []
octets (suc n) addr = (addr / 2 ^ (8 * n) % 256) ∷ octets n addr

-- `addr & (MAX << low)`.
abbrev pub clear_low : ℕ → ℕ → ℕ
clear_low addr low = addr / 2 ^ low * 2 ^ low

unfoldable pub hash_masked : IpAddr → ℕ → ℕ → ℕ
unfolding fnv1a octets
hash_masked (IpAddr.v4 addr) v4_prefix v6_prefix =
    fnv1a (octets 4 (clear_low addr (32 - v4_prefix)))
hash_masked (IpAddr.v6 addr) v4_prefix v6_prefix =
    fnv1a (octets 16 (clear_low addr (128 - v6_prefix)))

unfoldable pub fingerprint : IpAddr → Fingerprint
unfolding hash_masked
fingerprint peer = record {
  keys =
      (record { kind = KeyKind.peer_host; id = hash_masked peer 32 64 })
      ∷ (record { kind = KeyKind.peer_network; id = hash_masked peer 24 56 })
      ∷ [];
}
