-- ===== src/Buffer/Container/Queue.antt =====
-- The specification that the containers of buffer.h implement: a queue of bytes.
use simple_network.Base.{
  ℕ, ◌≤◌, ◌<◌, ◌≡◌, refl, ap, ◌∙◌, List, [], ◌∷◌, ◌++◌, length, take, drop, npos, Bytes, Run, ok,
  ◌>>=◌,
}
use simple_network.Buffer.Container.{Container}

-- The laws of a queue. `Room` says when so many bytes can be written without growing.
pub record Queue {C : Type 0} (i : Container C) : Type 1 where
  pub IsValid : C → Type 0
  pub contents : C → Bytes
  pub Room : C → ℕ → Type 0
  pub count_law : (c : C) → IsValid c → i.get_count c ≡ length (contents c)
  pub reset_law : (c : C) → IsValid c → IsValid (i.reset c) × (contents (i.reset c) ≡ [])
  pub read_law :
      (fuel n : ℕ) (c : C)
      → IsValid c
      → n < fuel
      → n ≤ length (contents c)
      → (c' : C) × (i.read fuel c n npos ≡ ok (take n (contents c), c'))
        × IsValid c'
        × (contents c' ≡ drop n (contents c))
  pub remove_law :
      (n : ℕ) (c : C)
      → IsValid c
      → n ≤ length (contents c)
      → (c' : C) × (i.remove c n ≡ ok c') × IsValid c' × (contents c' ≡ drop n (contents c))
  pub write_law :
      (fuel : ℕ) (c : C) (bs : Bytes)
      → IsValid c
      → 0 < length bs
      → length bs < fuel
      → Room c (length bs)
      → (c' : C) × (i.write fuel c bs npos ≡ ok c') × IsValid c' × (contents c' ≡ contents c ++ bs)

-- What a user does with a buffer: put bytes in, take bytes out, throw bytes away, empty it.
pub data Op : Type 0 where
  push : Bytes → Op
  pop : ℕ → Op
  skip : ℕ → Op
  clear : Op

-- The bytes taken out, and the bytes left, of a plain list.
unfoldable pub replay : List Op → Bytes → List Bytes × Bytes
replay [] xs = ([], xs)
replay (push bs ∷ ops) xs = replay ops (xs ++ bs)
replay (pop n ∷ ops) xs = let (outs, ys) = replay ops (drop n xs) in (take n xs ∷ outs, ys)
replay (skip n ∷ ops) xs = replay ops (drop n xs)
replay (clear ∷ ops) xs = replay ops []

module _ {C : Type 0} (i : Container C) where
  -- The same calls on a container.
  unfoldable pub run : ℕ → List Op → C → Run (List Bytes × C)
  run fuel [] c = ok ([], c)
  run fuel (push bs ∷ ops) c = do c' ← i.write fuel c bs npos; run fuel ops c'
  run fuel (pop n ∷ ops) c = do
    (out, c') ← i.read fuel c n npos
    (outs, c'') ← run fuel ops c'
    ok (out ∷ outs, c'')
  run fuel (skip n ∷ ops) c = do c' ← i.remove c n; run fuel ops c'
  run fuel (clear ∷ ops) c = run fuel ops (i.reset c)

  module _ (q : Queue i) where
    -- Nothing is taken that is not there, and what is put in has room, in every state on the way.
    abbrev pub Admissible : ℕ → List Op → C → Type 0
    Admissible fuel [] c = Unit
    Admissible fuel (push bs ∷ ops) c =
        (0 < length bs)
        × (length bs < fuel)
        × q.Room c (length bs)
        × ((c' : C) → i.write fuel c bs npos ≡ ok c' → Admissible fuel ops c')
    Admissible fuel (pop n ∷ ops) c =
        (n < fuel)
        × (n ≤ length (q.contents c))
        × ((out : Bytes) (c' : C) → i.read fuel c n npos ≡ ok (out, c') → Admissible fuel ops c')
    Admissible fuel (skip n ∷ ops) c =
        (n ≤ length (q.contents c)) × ((c' : C) → i.remove c n ≡ ok c' → Admissible fuel ops c')
    Admissible fuel (clear ∷ ops) c = Admissible fuel ops (i.reset c)

    -- Any admissible sequence of calls on a valid container ends, gives what the same calls on the list
    -- of the bytes held give, and leaves a valid container that holds what is left of the list.
    pub run-refines :
        (fuel : ℕ) (ops : List Op) (c : C)
        → q.IsValid c
        → Admissible fuel ops c
        → (c' : C) × (run fuel ops c ≡ ok ((replay ops (q.contents c)).0, c'))
          × q.IsValid c'
          × (q.contents c' ≡ (replay ops (q.contents c)).1)
    unfolding run replay
    run-refines fuel [] c v a = (c, refl, v, refl)
    run-refines fuel (push bs ∷ ops) c v (some_bytes, enough, room, next) =
        let (c₁, first, v₁, held) = q.write_law fuel c bs v some_bytes enough room in
        let (c₂, rest, v₂, left) = run-refines fuel ops c₁ v₁ (next c₁ first) in
        (
          c₂,
          rw first (rest ∙ ap (λ xs. ok ((replay ops xs).0, c₂)) held),
          v₂,
          left ∙ ap (λ xs. (replay ops xs).1) held,
        )
    run-refines fuel (pop n ∷ ops) c v (enough, there, next) =
        let (c₁, first, v₁, held) = q.read_law fuel n c v enough there in
        let (c₂, rest, v₂, left) =
          run-refines fuel ops c₁ v₁ (next (take n (q.contents c)) c₁ first) in
        (
          c₂,
          rw (first, rest) (ap (λ xs. ok (take n (q.contents c) ∷ (replay ops xs).0, c₂)) held),
          v₂,
          left ∙ ap (λ xs. (replay ops xs).1) held,
        )
    run-refines fuel (skip n ∷ ops) c v (there, next) =
        let (c₁, first, v₁, held) = q.remove_law n c v there in
        let (c₂, rest, v₂, left) = run-refines fuel ops c₁ v₁ (next c₁ first) in
        (
          c₂,
          rw first (rest ∙ ap (λ xs. ok ((replay ops xs).0, c₂)) held),
          v₂,
          left ∙ ap (λ xs. (replay ops xs).1) held,
        )
    run-refines fuel (clear ∷ ops) c v next =
        let (v₁, empty) = q.reset_law c v in
        let (c₂, rest, v₂, left) = run-refines fuel ops (i.reset c) v₁ next in
        (
          c₂,
          rest ∙ ap (λ xs. ok ((replay ops xs).0, c₂)) empty,
          v₂,
          left ∙ ap (λ xs. (replay ops xs).1) empty,
        )
