-- ===== src/Processing/Chunker/Split.antt =====
-- packages/processing/src/chunker.ts: the generator loses no byte, reorders none and adds none; it
-- always ends.
use ddrive.Prelude.{
  ℕ, zero, suc, ◌+◌, ◌-◌, ◌≤◌, ◌<◌, min, ◌≡◌, refl, sym, ap, ◌∙◌, inl, inr, List, [], ◌∷◌, ◌++◌,
  some, arith, ltb, ◌==◌, length, take, drop, flatten, length-append, length-replicate, append-nil,
  append_assoc, Bool-cases, le→leb, ltb→lt, ltb→le, ==_iff, subst,
}
use ddrive.Prelude.Slices.{
  slice, length-take, length-drop, length-slice, take-append_left, take_all, slice-append,
  slice_empty,
}
use ddrive.Processing.Chunker.{
  Bytes, Chunk, set_at, State, init, flush, fill, read_all, finish, chunk_file_stream,
}

abbrev pub data_of : List Chunk → List Bytes
data_of [] = []
data_of ((i, d) ∷ cs) = d ∷ data_of cs

-- Chunks that are all full, and numbered from `i` on.
abbrev Full : ℕ → ℕ → List Chunk → Type 0
Full chunk_size i [] = Unit {0}
Full chunk_size i ((j, d) ∷ cs) = (j ≡ i) × (length d ≡ chunk_size) × Full chunk_size (suc i) cs

-- Chunks numbered from `i` on, all full but the last, which may be shorter but is not empty.
abbrev pub IsChunked : ℕ → ℕ → List Chunk → Type 0
IsChunked chunk_size i [] = Unit {0}
IsChunked chunk_size i ((j, d) ∷ []) = (j ≡ i) × (0 < length d) × (length d ≤ chunk_size)
IsChunked chunk_size i ((j, d) ∷ c ∷ cs) =
    (j ≡ i) × (length d ≡ chunk_size) × IsChunked chunk_size (suc i) (c ∷ cs)

data_of-append :
    (xs ys : List Chunk)
    → flatten (data_of (xs ++ ys)) ≡ flatten (data_of xs) ++ flatten (data_of ys)
data_of-append [] ys = refl
data_of-append ((i, d) ∷ xs) ys =
    ap (λ l. d ++ l) (data_of-append xs ys)
    ∙ sym (append_assoc d (flatten (data_of xs)) (flatten (data_of ys)))

Full-snoc :
    (chunk_size i : ℕ) (xs : List Chunk) (j : ℕ) (d : Bytes)
    → Full chunk_size i xs
    → j ≡ i + length xs
    → length d ≡ chunk_size
    → Full chunk_size i (xs ++ (j, d) ∷ [])
Full-snoc c i [] j d f e l = (omega arith, l, tt)
Full-snoc c i ((k, x) ∷ xs) j d f e l = (f.0, f.1, Full-snoc c (suc i) xs j d f.2 (omega arith) l)

Full-IsChunked :
    (chunk_size i : ℕ) (xs : List Chunk)
    → 0 < chunk_size
    → Full chunk_size i xs
    → IsChunked chunk_size i xs
Full-IsChunked c i [] p f = tt
Full-IsChunked c i ((j, d) ∷ []) p f = (f.0, omega arith, omega arith)
Full-IsChunked c i ((j, d) ∷ x ∷ xs) p f = (f.0, f.1, Full-IsChunked c (suc i) (x ∷ xs) p f.2)

Full-IsChunked_snoc :
    (chunk_size i : ℕ) (xs : List Chunk) (j : ℕ) (d : Bytes)
    → Full chunk_size i xs
    → j ≡ i + length xs
    → 0 < length d
    → length d ≤ chunk_size
    → IsChunked chunk_size i (xs ++ (j, d) ∷ [])
Full-IsChunked_snoc c i [] j d f e p l = (omega arith, p, l)
Full-IsChunked_snoc c i (x ∷ []) j d f e p l = (f.0, f.1, (omega arith, p, l))
Full-IsChunked_snoc c i (x ∷ y ∷ xs) j d f e p l =
    (f.0, f.1, Full-IsChunked_snoc c (suc i) (y ∷ xs) j d f.2 (omega arith) p l)

-- The loop invariant: what has been yielded and the filled part of the buffer are what was read.
record Inv (chunk_size : ℕ) (done : Bytes) (s : State) : Type 0 where
  size : length s.acc ≡ chunk_size
  room : s.acc_len < chunk_size
  full : Full chunk_size 0 s.out
  next : s.index ≡ length s.out
  kept : flatten (data_of s.out) ++ take s.acc_len s.acc ≡ done

set_at-some :
    (target source : Bytes) (at : ℕ)
    → at + length source ≤ length target
    → (r : Bytes) × (set_at target source at ≡ some r)
      × (length r ≡ length target)
      × (take (at + length source) r ≡ take at target ++ source)
unfolding set_at
set_at-some target source at h = (
  take at target ++ (source ++ drop (at + length source) target),
  rw (le→leb _ _ h),
  omega (
    arith,
    length-append (take at target) (source ++ drop (at + length source) target),
    length-append source (drop (at + length source) target),
    length-take at target,
    length-drop (at + length source) target,
  ),
  ap (take (at + length source)) (sym (append_assoc (take at target) source _))
      ∙ take-append_left (at + length source) (take at target ++ source) _
          (omega (arith, length-append (take at target) source, length-take at target))
      ∙ take_all (at + length source) (take at target ++ source)
          (omega (arith, length-append (take at target) source, length-take at target)),
)

-- After `n` more bytes, `flush` restores the invariant.
flush-Inv :
    (c n : ℕ) (done got : Bytes) (s : State) (acc : Bytes)
    → Inv c done s
    → length acc ≡ c
    → 0 < c
    → s.acc_len + n ≤ c
    → take (s.acc_len + n) acc ≡ take s.acc_len s.acc ++ got
    → Inv c (done ++ got) (flush c (record s { acc = acc; acc_len = s.acc_len + n }))
unfolding flush
flush-Inv c n done got s acc v l pos h e = elim (Bool-cases (s.acc_len + n == c)) [
  | inl eq ↦
      let reached : s.acc_len + n ≡ c = (==_iff _ _).0 eq in
      rw eq (record {
        size = length-replicate c 0;
        room = pos;
        full = Full-snoc c 0 s.out s.index acc v.full (omega (arith, v.next)) l;
        next = omega (arith, v.next, length-append s.out ((s.index, acc) ∷ []));
        kept =
            append-nil _
            ∙ data_of-append s.out ((s.index, acc) ∷ [])
            ∙ ap (λ t. flatten (data_of s.out) ++ t)
                (append-nil acc ∙ sym (take_all (s.acc_len + n) acc (omega arith)) ∙ e)
            ∙ sym (append_assoc _ _ got)
            ∙ ap (λ t. t ++ got) v.kept;
      })
  | inr ne ↦ rw ne (record {
    size = l;
    room = ground (arith, ==_iff (s.acc_len + n) c);
    full = v.full;
    next = v.next;
    kept =
        ap (λ t. flatten (data_of s.out) ++ t) e
        ∙ sym (append_assoc _ _ got)
        ∙ ap (λ t. t ++ got) v.kept;
  })
]

-- One value is read to its end, whatever the state of the buffer.
fill-Inv :
    (fuel c : ℕ) (value : Bytes) (offset : ℕ) (done : Bytes) (s : State)
    → length value < fuel + offset
    → offset ≤ length value
    → Inv c done s
    → (s' : State) × (fill fuel c value offset s ≡ some s')
      × Inv c (done ++ slice offset (length value) value) s'
unfolding fill
fill-Inv zero c value offset done s h k v = absurd (omega arith)
fill-Inv (suc fuel) c value offset done s h k v = elim (Bool-cases (ltb offset (length value))) [
  | inr stop ↦
      let past = ltb→le _ _ stop in
      (s, rw (stop, fill), rw (slice_empty offset (length value) value past, append-nil done) v)
  | inl more ↦
      let lt = ltb→lt _ _ more in
      let room = v.room in
      let n = min (c - s.acc_len) (length value - offset) in
      let got = slice offset (offset + n) value in
      let len : length got ≡ n = omega (arith, length-slice offset (offset + n) value) in
      let (acc, put, size, filled) = set_at-some s.acc got s.acc_len (omega (arith, v.size)) in
      let next =
        flush-Inv c n done got s acc v (omega (arith, v.size)) (omega arith) (omega arith)
          (rw (ap (λ m. take (s.acc_len + m) acc) len) at filled) in
      let (s', run, inv) =
        fill-Inv fuel c value (offset + n) (done ++ got)
          (flush c (record s { acc = acc; acc_len = s.acc_len + n })) (omega arith) (omega arith)
          next in
      (
        s',
        rw (more, put, fill) run,
        subst (λ t. Inv c t s')
            (append_assoc done got _
              ∙ ap (λ t. done ++ t)
                  (slice-append offset (offset + n) (length value) value (omega arith)
                    (omega arith)))
            inv,
      )
]

read_all-Inv :
    (c : ℕ) (values : List Bytes) (done : Bytes) (s : State)
    → Inv c done s
    → (s' : State) × (read_all c values s ≡ some s') × Inv c (done ++ flatten values) s'
unfolding read_all
read_all-Inv c [] done s v = (s, refl, rw append-nil v)
read_all-Inv c (value ∷ values) done s v =
    let (s', run, v') =
      fill-Inv (suc (length value)) c value 0 done s (omega arith) (omega arith) v in
    let whole : slice 0 (length value) value ≡ value = take_all _ value (omega arith) in
    let (t, runs, w) = read_all-Inv c values (done ++ slice 0 (length value) value) s' v' in
    (
      t,
      rw (run, read_all) runs,
      subst (λ x. Inv c x t) (append_assoc done _ _ ∙ ap (λ x. done ++ (x ++ flatten values)) whole)
          w,
    )

finish-IsChunked :
    (c : ℕ) (done : Bytes) (s : State)
    → Inv c done s
    → IsChunked c 0 (finish s) × (flatten (data_of (finish s)) ≡ done)
unfolding finish
finish-IsChunked c done s v = elim (Bool-cases (ltb 0 s.acc_len)) [
  | inl more ↦
      let lt = ltb→lt _ _ more in
      let len = length-take s.acc_len s.acc in
      rw more (
        Full-IsChunked_snoc c 0 s.out s.index (take s.acc_len s.acc) v.full (omega (arith, v.next))
            (omega (arith, v.size, v.room)) (omega (arith, v.size, v.room)),
        data_of-append s.out _
            ∙ ap (λ t. flatten (data_of s.out) ++ t) (append-nil (take s.acc_len s.acc))
            ∙ v.kept,
      )
  | inr none_left ↦
      let zero_left : s.acc_len ≡ 0 = omega (arith, ltb→le _ _ none_left) in
      rw none_left (
        Full-IsChunked c 0 s.out (omega (arith, v.room)) v.full,
        sym (append-nil _)
            ∙ ap (λ n. flatten (data_of s.out) ++ take n s.acc) (sym zero_left)
            ∙ v.kept,
      )
]

-- With a positive chunk size the generator ends without an error, whatever values its reader
-- delivers; what it yields, joined, is what it read, and the chunks are numbered from 0, all full
-- but the last, which is not empty and not longer.
pub chunk_file_stream-splits :
    (values : List Bytes) (chunk_size : ℕ)
    → 0 < chunk_size
    → (cs : List Chunk) × (chunk_file_stream values chunk_size ≡ some cs)
      × IsChunked chunk_size 0 cs
      × (flatten (data_of cs) ≡ flatten values)
unfolding chunk_file_stream init
chunk_file_stream-splits values c pos =
    let start : Inv c [] (init c) = record {
      size = length-replicate c 0;
      room = pos;
      full = tt;
      next = refl;
      kept = refl;
    } in
    let (s, run, v) = read_all-Inv c values [] (init c) start in
    let (chunked, same) = finish-IsChunked c (flatten values) s v in
    (finish s, rw (run, chunk_file_stream), chunked, same)
