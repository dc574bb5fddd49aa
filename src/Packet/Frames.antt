-- ===== src/Packet/Frames.antt =====
-- A packet in memory: its length, then its bytes.
use simple_network.Base.{
  ℕ, ◌+◌, ◌≡◌, refl, sym, ap, ap₂, splice, splice-parts, ◌∙◌, List, [], ◌∷◌, ◌++◌, append_assoc,
  length, take, drop, Bytes, to_bytes, length-to_bytes, length-append, take-append, drop-append,
  arith, ◌<◌,
}

abbrev pub frame : Bytes → Bytes
frame body = to_bytes (length body) ++ body

pub length-frame : (body : Bytes) → length (frame body) ≡ length body + 4
length-frame body =
    omega (arith, length-append (to_bytes (length body)) body, length-to_bytes (length body))

abbrev pub concat : List Bytes → Bytes
concat [] = []
concat (xs ∷ xss) = xs ++ concat xss

-- No value has size 0 in C++.
abbrev pub AllFull : List Bytes → Type 0
AllFull [] = Unit {0}
AllFull (xs ∷ xss) = (0 < length xs) × AllFull xss

-- The bytes at an offset of a list, where the list is taken apart there.
pub middle :
    (n m : ℕ) (xs ys zs : Bytes)
    → length xs ≡ n
    → length ys ≡ m
    → take m (drop n (xs ++ (ys ++ zs))) ≡ ys
middle n m xs ys zs p q = ap (take m) (drop-append n xs (ys ++ zs) p) ∙ take-append m ys zs q

-- Writing over the first four of a suffix.
pub splice-header :
    (before old new body : Bytes)
    → length old ≡ length new
    → splice (before ++ (old ++ body)) (length before) new ≡ before ++ (new ++ body)
splice-header before old new body h =
    splice-parts (before ++ (old ++ body)) (length before) (length body) new
      (omega (arith, length-append before (old ++ body), length-append old body))
    ∙ ap₂ (λ a b. a ++ (new ++ b)) (take-append (length before) before (old ++ body) refl)
        (ap (drop (length before + length new)) (sym (append_assoc before old body))
          ∙ drop-append (length before + length new) (before ++ old) body
              (omega (arith, length-append before old)))
