-- ===== src/DockerApi/Framing/Ending.antt =====
-- The termination of `feed`: what a turn of its loop leaves in the buffer.
use hosted_replay_harness.Prelude.{
  Bool, Bytes, Option, [], arith, cut_crlf, false, if◌then◌else◌, length, length-drop, none, refl,
  some, suc, true, zero, ℕ, ◌&&◌, ◌-◌, ◌<◌, ◌==◌, ◌∷◌, ◌≡◌, ◌≤◌, ap, leb, ltb, ◌++◌, inl, inr, ◌⊎◌,
}
use hosted_replay_harness.DockerApi.Framing.{
  Parser, Turn, consume_chunk, consume_content, consume_crlf, on, out, Mode, at_line, consume_in,
  in_body, in_chunk_crlf, in_chunk_data, in_chunk_size, in_chunk_trailer, in_headers, Feeding,
  Shared, write_failure, Side, consume_body, consumed_turn, feed, feed_loop, max_line, no_line,
  pop_line, popped, popped_turn, too_long, turn, value_failure, Fed, fed,
}
use hosted_replay_harness.Value.{negsuc, pos, ℤ}
use hosted_replay_harness.DockerApi.Framing.Lines.{Leaves, is_fed, line-Leaves}

pub cut_crlf-length :
    (s line rest : Bytes) → cut_crlf s ≡ some (line, rest) → length rest < length s
cut_crlf-length [] line rest h = cc
cut_crlf-length (c ∷ []) line rest h = cc
cut_crlf-length (c ∷ (d ∷ s)) line rest h =
    shorter ((c == b'\r') && (d == b'\n')) (cut_crlf (d ∷ s)) (cut_crlf-length (d ∷ s)) h
  where
    shorter :
        (t : Bool) (o : Option (Bytes × Bytes))
        → ((line rest : Bytes) → o ≡ some (line, rest) → length rest < suc (length s))
        → (if◌then◌else◌ {A = Option (Bytes × Bytes)} t
            (some ([], s))
            (elim o [ none ↦ none | some (first, more) ↦ some (c ∷ first, more) ]))
          ≡ some (line, rest)
        → length rest < suc (suc (length s))
    shorter true o law h = ground arith
    shorter false none law h = cc
    shorter false (some (first, more)) law h = ground (arith, law first more refl)

-- What reading leaves of `n` bytes: fewer where it tells of progress.
abbrev Left : ℕ → ℕ → Bool → Type 0
Left n m true = m < n
Left n m false = m ≤ n

abbrev takes_all : Mode → Bool
takes_all in_body = true
takes_all in_chunk_data = true
takes_all _ = false

-- No byte of a body is left in the buffer.
abbrev Emptied : Parser → Type 0
Emptied p = (takes_all p.mode ≡ false) ⊎ (p.buffer ≡ [])

abbrev Consumes : ℕ → Parser × Bool → Type 0
Consumes n (q, b) = Left n (length q.buffer) b × Emptied q

either-Consumes :
    (t : Bool) (n : ℕ) (x y : Parser × Bool)
    → (t ≡ true → Consumes n x)
    → (t ≡ false → Consumes n y)
    → Consumes n (if t then x else y)
either-Consumes true n x y f g = f refl
either-Consumes false n x y f g = g refl

Left-cut : (n k m : ℕ) → m ≡ n - k → leb k n ≡ true → Left n m (ltb 0 k)
Left-cut n zero m e h = omega (arith, e)
Left-cut n (suc k) m e h = ground arith

Left-all : (n : ℕ) → Left n 0 (ltb 0 n)
Left-all zero = omega arith
Left-all (suc n) = ground arith

chunk-Consumes : (z : ℤ) (p : Parser) → Consumes (length p.buffer) (consume_chunk z p)
chunk-Consumes (pos n) p =
    either-Consumes (leb n (length p.buffer)) (length p.buffer) _ _
      (λ h. (Left-cut _ n _ (length-drop n p.buffer) h, inl refl))
      (λ _. (Left-all (length p.buffer), inr refl))
chunk-Consumes (negsuc n) p =
    (omega (arith, length-drop (length p.buffer - suc n) p.buffer), inl refl)

content-Consumes : (p : Parser) → Consumes (length p.buffer) (consume_content p)
content-Consumes p =
    either-Consumes (leb p.content_remaining (length p.buffer)) (length p.buffer) _ _
      (λ h.
        (Left-cut _ p.content_remaining _ (length-drop p.content_remaining p.buffer) h, inl refl))
      (λ _. (Left-all (length p.buffer), inr refl))

abbrev MayConsume : ℕ → Option (Parser × Bool) → Type 0
MayConsume n none = Unit
MayConsume n (some r) = Consumes n r

crlf-MayConsume :
    (b : Bytes) (p : Parser)
    → p.buffer ≡ b
    → takes_all p.mode ≡ false
    → MayConsume (length b) (consume_crlf b p)
crlf-MayConsume [] p h m = (omega (arith, ap length h), inl m)
crlf-MayConsume (a ∷ []) p h m = (omega (arith, ap length h), inl m)
crlf-MayConsume (a ∷ (b ∷ s)) p h m = both ((a == b'\r') && (b == b'\n'))
  where
    both :
        (t : Bool)
        → MayConsume
            (suc (suc (length s)))
            (if t then some (record p { buffer = s; mode = in_chunk_size }, true) else none)
    both true = (omega arith, inl refl)
    both false = tt

consumes : (m : Mode) (p : Parser) → p.mode ≡ m → MayConsume (length p.buffer) (consume_in m p)
unfolding consume_in
consumes in_body p h = content-Consumes p
consumes in_chunk_data p h = chunk-Consumes p.chunk_remaining p
consumes in_chunk_crlf p h = crlf-MayConsume p.buffer p refl (ap takes_all h)
consumes at_line p h = (omega arith, inl (ap takes_all h))
consumes in_headers p h = (omega arith, inl (ap takes_all h))
consumes in_chunk_size p h = (omega arith, inl (ap takes_all h))
consumes in_chunk_trailer p h = (omega arith, inl (ap takes_all h))

-- A parser that needs more bytes to go on: the buffer holds no whole line and no byte of a body,
-- and is not longer than a line may be.
pub record AtRest (p : Parser) : Type 0 where
  pub no_whole_line : cut_crlf p.buffer ≡ none
  pub short : length p.buffer ≤ max_line
  pub emptied : Emptied p

-- What `feed` leaves where it ends without an exception.
abbrev pub Settles : Fed → Parser → Type 0
Settles fed p = AtRest p
Settles value_failure p = Unit
Settles write_failure p = Unit

not_fed-Settles : (e : Fed) (p : Parser) → is_fed e ≡ false → Settles e p
not_fed-Settles fed p h = cc
not_fed-Settles value_failure p h = tt
not_fed-Settles write_failure p h = tt

-- A turn that goes on has read something; one that does not has settled.
abbrev Shortens : ℕ → Turn → Type 0
Shortens n (on q s) = length q.buffer < n
Shortens n (out f) = Settles f.ended f.parser

Leaves-Shortens : (n : ℕ) (b : Bytes) (t : Turn) → length b < n → Leaves b t → Shortens n t
Leaves-Shortens n b (on q s) h l = omega (arith, h, ap length l)
Leaves-Shortens n b (out f) h l = not_fed-Settles f.ended f.parser l

pop-Shortens :
    (side : Side) (p : Parser) (s : Shared) (n : ℕ)
    → length p.buffer ≤ n
    → Emptied p
    → Shortens n (popped_turn side (pop_line p.buffer) p s)
unfolding popped_turn pop_line
pop-Shortens side p s n h e = by_cut (cut_crlf p.buffer) refl (cut_crlf-length p.buffer)
  where
    by_cut :
        (o : Option (Bytes × Bytes))
        → cut_crlf p.buffer ≡ o
        → ((line rest : Bytes) → o ≡ some (line, rest) → length rest < length p.buffer)
        → Shortens n (
            popped_turn side
              (elim o [
                | none ↦ if ltb max_line (length p.buffer) then too_long else no_line
                | some (line, rest) ↦ popped line rest
              ])
              p
              s)
    by_cut none c law = by_test (ltb max_line (length p.buffer)) refl
      where
        by_test :
            (t : Bool)
            → ltb max_line (length p.buffer) ≡ t
            → Shortens n (popped_turn side (if t then too_long else no_line) p s)
        by_test true k = tt
        by_test false k = record { no_whole_line = c; short = ground (arith, k); emptied = e }
    by_cut (some (line, rest)) c law =
        Leaves-Shortens n rest _ (omega (arith, law line rest refl, h))
          (line-Leaves side p.mode line (record p { buffer = rest }) s)

consumed-Shortens :
    (side : Side) (o : Option (Parser × Bool)) (p : Parser) (s : Shared)
    → MayConsume (length p.buffer) o
    → Shortens (length p.buffer) (consumed_turn side o p s)
unfolding consumed_turn
consumed-Shortens side none p s m = tt
consumed-Shortens side (some (q, true)) p s m = m.0
consumed-Shortens side (some (q, false)) p s m = pop-Shortens side q s (length p.buffer) m.0 m.1

turn-Shortens :
    (side : Side) (b : Bytes) (p : Parser) (s : Shared)
    → p.buffer ≡ b
    → Shortens (length p.buffer) (turn side b p s)
unfolding turn consume_body
turn-Shortens side [] p s h = record {
  no_whole_line = ap cut_crlf h;
  short = omega (arith, ap length h);
  emptied = inr h;
}
turn-Shortens side (c ∷ b) p s h =
    consumed-Shortens side (consume_body p) p s (consumes p.mode p refl)

-- The loop without fuel: turn after turn until one of them is the last.
pub data Reads (side : Side) (f : Feeding) : Parser → Shared → Type 0 where
  reads_on :
      (p q : Parser) (s t : Shared)
      → turn side p.buffer p s ≡ on q t
      → Reads side f q t
      → Reads side f p s
  reads_out : (p : Parser) (s : Shared) → turn side p.buffer p s ≡ out f → Reads side f p s

-- The loop ends with `f`, after its turns, and has settled.
abbrev Finishes : Side → Parser → Shared → Option Feeding → Type 0
Finishes side p s o = (f : Feeding) × (o ≡ some f) × Reads side f p s × Settles f.ended f.parser

feed_loop-ends :
    (n : ℕ) (side : Side) (p : Parser) (s : Shared)
    → length p.buffer < n
    → Finishes side p s (feed_loop n side p s)
unfolding feed_loop
feed_loop-ends zero side p s h = absurd (omega (arith, h))
feed_loop-ends (suc n) side p s h =
    by_turn (turn side p.buffer p s) refl (turn-Shortens side p.buffer p s refl)
      (λ q u k. feed_loop-ends n side q u k)
  where
    by_turn :
        (t : Turn)
        → turn side p.buffer p s ≡ t
        → Shortens (length p.buffer) t
        → ((q : Parser) (u : Shared)
            → length q.buffer < n
            → Finishes side q u (feed_loop n side q u))
        → Finishes side p s (elim t [ on q u ↦ feed_loop n side q u | out g ↦ some g ])
    by_turn (on q u) e k rest =
        let (f, h₁, r, settled) = rest q u (omega (arith, h, k)) in
        (f, h₁, reads_on p q s u e r, settled)
    by_turn (out g) e k rest = (g, refl, reads_out p s e, k)

-- Whatever bytes come and whatever state the parser is in, feed ends with the result of the loop
-- without fuel on the buffer with these bytes behind it, turn after turn to the last one; and
-- where that is no exception, the buffer holds no whole line, no byte of a body or chunk and no
-- more than a line may have.
pub feed-ends :
    (side : Side) (received : Bytes) (p : Parser) (s : Shared)
    → (f : Feeding) × (feed side received p s ≡ some f)
      × Reads side f (record p { buffer = p.buffer ++ received }) s
      × Settles f.ended f.parser
unfolding feed
feed-ends side received p s =
    let q = record p { buffer = p.buffer ++ received } in
    feed_loop-ends (suc (length q.buffer)) side q s (omega arith)
