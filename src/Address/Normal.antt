-- ===== src/Address/Normal.antt =====
-- normalizeHost of the agent against normalizeAddr of the server.
use metrify.Base.{
  Bytes, ◌∷◌, ◌++◌, ◌⊎◌, ◌≡◌, refl, sym, ap, ◌∙◌, codes, bytes_eq, is_empty, Bool-cases,
  Option-cases, inl, inr, arith,
}
use metrify.Address.{split_host_port, normalize_host, normalize_addr}
use metrify.Address.Splitting.{
  IsPort, split_host_port-IsPort, split_host_port-no_host, split_host_port-localhost,
}

-- A text without a port is not changed, and one with a port is, if its host is empty (by both) or
-- "localhost" (by normalizeAddr).
normalize-cases :
    (a : Bytes)
    → ((normalize_host a ≡ a) × (normalize_addr a ≡ a))
      ⊎ ((p : Bytes) × IsPort p
          × (normalize_addr a ≡ b':' ∷ p)
          × ((normalize_host a ≡ a) ⊎ (normalize_host a ≡ codes "localhost:" ++ p)))
unfolding normalize_host normalize_addr
normalize-cases a = elim (Option-cases (split_host_port a)) [
  | inl e ↦ inl (rw e refl, rw e refl)
  | inr ((h, p), e) ↦ elim (Bool-cases (is_empty h)) [
    | inl empty ↦ inr (p, split_host_port-IsPort a h p e, ground arith, inr rw (e, empty) refl)
    | inr named ↦ elim (Bool-cases (bytes_eq h (codes "localhost"))) [
      | inl local ↦
          inr (p, split_host_port-IsPort a h p e, rw (e, local) refl, inl rw (e, named) refl)
      | inr other ↦ inl (rw (e, named) refl, rw (e, other, named) refl)
    ]
  ]
]

addr_of_port : (p : Bytes) → IsPort p → normalize_addr (b':' ∷ p) ≡ b':' ∷ p
unfolding normalize_addr
addr_of_port p port = rw (split_host_port-no_host p port) refl

addr_of_localhost : (p : Bytes) → IsPort p → normalize_addr (codes "localhost:" ++ p) ≡ b':' ∷ p
unfolding normalize_addr
addr_of_localhost p port = rw (split_host_port-localhost p port) refl

host_of_localhost :
    (p : Bytes) → IsPort p → normalize_host (codes "localhost:" ++ p) ≡ codes "localhost:" ++ p
unfolding normalize_host
host_of_localhost p port = rw (split_host_port-localhost p port) refl

-- Both ways to write an address agree: for every text, the server makes the same address of what
-- the agent makes of the text as it makes of the text itself, and normalizing a second time, at
-- either, changes nothing.
pub normalize_addr-normalize_host :
    (a : Bytes)
    → (normalize_addr (normalize_host a) ≡ normalize_addr a)
      × (normalize_host (normalize_host a) ≡ normalize_host a)
      × (normalize_addr (normalize_addr a) ≡ normalize_addr a)
normalize_addr-normalize_host a = elim (normalize-cases a) [
  | inl (host, addr) ↦ (ap normalize_addr host, ap normalize_host host, ap normalize_addr addr)
  | inr (p, port, addr, inl host) ↦ (
    ap normalize_addr host,
    ap normalize_host host,
    ap normalize_addr addr ∙ addr_of_port p port ∙ sym addr,
  )
  | inr (p, port, addr, inr host) ↦ (
    ap normalize_addr host ∙ addr_of_localhost p port ∙ sym addr,
    ap normalize_host host ∙ host_of_localhost p port ∙ sym host,
    ap normalize_addr addr ∙ addr_of_port p port ∙ sym addr,
  )
]
