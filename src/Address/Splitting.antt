-- ===== src/Address/Splitting.antt =====
-- net.SplitHostPort: the ports that it gives, and the texts that it takes apart.
use metrify.Base.{
  ℕ, Bytes, false, Option, none, some, [], ◌∷◌, ◌++◌, ◌≡◌, refl, codes, nat_eq, Bool-cases,
  Option-cases, inl, inr, arith,
}
use metrify.Address.{
  has, split_first, split_last, port_after, split_bracketed, split_plain, split_host_port,
}

-- A port that SplitHostPort can give.
abbrev pub IsPort : Bytes → Type 0
IsPort p = (has b':' p ≡ false) × (has b'[' p ≡ false) × (has b']' p ≡ false)

split_last-none : (c : ℕ) (s : Bytes) → has c s ≡ false → split_last c s ≡ none
split_last-none c [] h = refl
split_last-none c (a ∷ s) h = elim (Bool-cases (nat_eq a c)) [
  | inl e ↦ absurd (cc (rw e at h))
  | inr e ↦ rw (split_last-none c s (rw e at h), e) refl
]

has-split_last : (c : ℕ) (s : Bytes) → split_last c s ≡ none → has c s ≡ false
has-split_last c [] h = refl
has-split_last c (a ∷ s) h = elim (Option-cases (split_last c s)) [
  | inl e ↦ elim (Bool-cases (nat_eq a c)) [
    | inl same ↦ absurd (cc (rw (e, same) at h))
    | inr other ↦ rw (other) (has-split_last c s e)
  ]
  | inr (r, e) ↦ absurd (cc (rw e at h))
]

split_last-has :
    (c : ℕ) (s front rest : Bytes) → split_last c s ≡ some (front, rest) → has c rest ≡ false
split_last-has c [] front rest h = absurd (cc h)
split_last-has c (a ∷ s) front rest h = elim (Option-cases (split_last c s)) [
  | inl e ↦ elim (Bool-cases (nat_eq a c)) [
    | inl same ↦
        (let h' : some ([], s) ≡ some (front, rest) = rw (e, same) at h in
          cc (h', has-split_last c s e))
    | inr other ↦ absurd (cc (rw (e, other) at h))
  ]
  | inr ((f, r), e) ↦
      (let h' : some (a ∷ f, r) ≡ some (front, rest) = rw e at h in
        cc (h', split_last-has c s f r e))
]

-- What is after the first of something has nothing that the whole has not.
split_first-has :
    (c d : ℕ) (s front rest : Bytes)
    → split_first c s ≡ some (front, rest)
    → has d s ≡ false
    → has d rest ≡ false
split_first-has c d [] front rest h free = absurd (cc h)
split_first-has c d (a ∷ s) front rest h free = elim (Bool-cases (nat_eq a d)) [
  | inl e ↦ absurd (cc (rw e at free))
  | inr e ↦ elim (Bool-cases (nat_eq a c)) [
    | inl same ↦
        (let h' : some ([], s) ≡ some (front, rest) = rw same at h in cc (h', rw e at free))
    | inr other ↦ elim (Option-cases (split_first c s)) [
      | inl missing ↦ absurd (cc (rw (other, missing) at h))
      | inr ((f, r), found) ↦
          (let h' : some (a ∷ f, r) ≡ some (front, rest) = rw (other, found) at h in
            cc (h', split_first-has c d s f r found (rw e at free)))
    ]
  ]
]

port_after-IsPort :
    (after port : Bytes) → port_after after ≡ some port → has b'[' after ≡ false → IsPort port
port_after-IsPort [] port h free = absurd (cc h)
port_after-IsPort (a ∷ p) port h free = ground arith

plain-IsPort :
    (o : Option (Bytes × Bytes)) (s host port : Bytes)
    → split_last b':' s ≡ o
    → split_plain o ≡ some (host, port)
    → IsPort port
plain-IsPort none s host port split h = absurd (cc h)
plain-IsPort (some (f, r)) s host port split h =
    let no_colon = split_last-has b':' s f r split in ground arith

bracketed-IsPort :
    (o : Option (Bytes × Bytes)) (s host port : Bytes)
    → split_first b']' s ≡ o
    → split_bracketed o s ≡ some (host, port)
    → IsPort port
bracketed-IsPort none s host port split h = absurd (cc h)
bracketed-IsPort (some (f, after)) s host port split h = elim (Bool-cases (has b'[' s)) [
  | inl e ↦ absurd (cc (rw e at h))
  | inr e ↦ elim (Option-cases (port_after after)) [
    | inl missing ↦ absurd (cc (rw (e, missing) at h))
    | inr (p, found) ↦
        (let h' : some (f, p) ≡ some (host, port) = rw (e, found) at h in
          port_after-IsPort after port (cc (found, h'))
            (split_first-has b']' b'[' s f after split e))
  ]
]

pub split_host_port-IsPort :
    (a host port : Bytes) → split_host_port a ≡ some (host, port) → IsPort port
unfolding split_host_port
split_host_port-IsPort [] host port h = absurd (cc h)
split_host_port-IsPort (c ∷ s) host port h = elim (Bool-cases (nat_eq c b'[')) [
  | inl e ↦ bracketed-IsPort _ s host port refl (rw e at h)
  | inr e ↦ plain-IsPort _ (c ∷ s) host port refl (rw e at h)
]

-- Texts that SplitHostPort takes apart.
pub split_host_port-no_host : (p : Bytes) → IsPort p → split_host_port (b':' ∷ p) ≡ some ([], p)
unfolding split_host_port
split_host_port-no_host p (colon, left, right) =
    rw (split_last-none b':' p colon) (rw (left, right) refl)

pub split_host_port-localhost :
    (p : Bytes) → IsPort p → split_host_port (codes "localhost:" ++ p) ≡ some (codes "localhost", p)
unfolding split_host_port
split_host_port-localhost p (colon, left, right) =
    rw (split_last-none b':' p colon) (rw (left, right) refl)
