-- ===== src/Streams/Bounded.antt =====
-- What the bounded copy promises of a reader that answers with data until it ends.
use pbo.Common.{
  ℕ, zero, suc, ◌+◌, ◌-◌, ◌^◌, ◌≤◌, ◌<◌, ◌≡◌, ◌≢◌, refl, sym, ap, ◌∙◌, false, [], ◌∷◌, ◌++◌, leb,
  ◌==◌, if◌then◌else◌, length, take, drop, Bytes, lt_i64, max_u32, min, arith, length-append,
  length-take, length-drop, take-append-drop, append_assoc, append-nil, Bool-cases, ◌⊎◌, inl, inr,
  subst,
}
use pbo.Model.{Result, ok, err, size_overflow}
use pbo.Wire.{is_empty, is_empty_of_ne}
use pbo.Streams.{
  chunk, nothing, failure, Stream, ReadEnd, continues, read, after_read, copy_loop, probe,
  copy_payload_bounded, checked_data_size,
}

-- Every answer is data, and no answer is empty.
abbrev pub IsHealthy : Stream → Type 0
IsHealthy [] = Unit
IsHealthy (chunk b ∷ s) = (b ≢ []) × IsHealthy s
IsHealthy (nothing ∷ s) = ⊥
IsHealthy (failure ∷ s) = ⊥

abbrev pub stream_data : Stream → Bytes
stream_data [] = []
stream_data (chunk b ∷ s) = b ++ stream_data s
stream_data (nothing ∷ s) = stream_data s
stream_data (failure ∷ s) = stream_data s

-- The checked size is the size, and it fits behind the running offset.
pub checked_data_size_lem :
    (size current : ℕ) {n : ℕ}
    → size < 2 ^ 63
    → current < 2 ^ 32
    → checked_data_size size current ≡ ok n
    → (n ≡ size) × (current + n ≤ max_u32)
unfolding checked_data_size
checked_data_size_lem size current {n} hs hc h = ground arith

pub checked_data_size_ok :
    (size current : ℕ) → current + size ≤ max_u32 → checked_data_size size current ≡ ok size
unfolding checked_data_size
checked_data_size_ok size current h = ground arith

-- One read of a healthy reader that has data left returns a part of the data, not empty and not
-- longer than the buffer.
pub record Reads (n : ℕ) (s : Stream) (part : Bytes) (end : ReadEnd) (left : Stream) : Type 0 where
  pub goes_on : end ≡ continues
  pub nonempty : is_empty part ≡ false
  pub fits : length part ≤ n
  pub healthy : IsHealthy left
  pub splits : part ++ stream_data left ≡ stream_data s

take_ne : (n : ℕ) (b : Bytes) → b ≢ [] → 0 < n → is_empty (take n b) ≡ false
unfolding is_empty
take_ne n [] h pos = absurd (h refl)
take_ne zero (c ∷ b) h pos = absurd (omega arith)
take_ne (suc n) (c ∷ b) h pos = refl

drop_ne : (n : ℕ) (b : Bytes) → n < length b → drop n b ≢ []
drop_ne n b h e = let k = ap length e in absurd (omega (arith, length-drop n b))

pub read-Reads :
    (n : ℕ) (b : Bytes) (s : Stream)
    → 0 < n
    → IsHealthy (chunk b ∷ s)
    → Reads n
        (chunk b ∷ s)
        (read n (chunk b ∷ s)).0
        (read n (chunk b ∷ s)).1
        (read n (chunk b ∷ s)).2
unfolding read
read-Reads n b s pos (ne, h) = elim (Bool-cases (leb (length b) n)) [
  | inl whole ↦ rw whole (record {
    goes_on = refl;
    nonempty = is_empty_of_ne b ne;
    fits = ground arith;
    healthy = h;
    splits = refl;
  })
  | inr cut ↦
      let lt : n < length b = ground arith in
      rw cut (record {
        goes_on = refl;
        nonempty = take_ne n b ne pos;
        fits = omega (arith, length-take n b);
        healthy = (drop_ne n b lt, h);
        splits =
            sym (append_assoc (take n b) (drop n b) (stream_data s))
            ∙ ap (λ t. t ++ stream_data s) (take-append-drop n b);
      })
]

-- How the loop ends: with the limit filled, or with the reader.
record Copied (limit : ℕ) (out : Bytes) (src : Stream) (r : Result (Bytes × Stream)) : Type 0 where
  taken : Bytes
  left : Stream
  returns : r ≡ ok (out ++ taken, left)
  healthy : IsHealthy left
  splits : taken ++ stream_data left ≡ stream_data src
  bounded : length (out ++ taken) ≤ limit
  stops : (length (out ++ taken) ≡ limit) ⊎ (left ≡ [])

Copied-stop :
    (limit : ℕ) (out : Bytes) (src : Stream)
    → IsHealthy src
    → length out ≤ limit
    → (length out ≡ limit) ⊎ (src ≡ [])
    → Copied limit out src (ok (out, src))
Copied-stop limit out src h le stop = record {
  taken = [];
  left = src;
  returns = ap (λ a. ok (a, src)) (sym (append-nil out));
  healthy = h;
  splits = refl;
  bounded = subst (λ a. length a ≤ limit) (sym (append-nil out)) le;
  stops = subst (λ a. (length a ≡ limit) ⊎ (src ≡ [])) (sym (append-nil out)) stop;
}

Copied-more :
    {limit : ℕ} {out : Bytes} {src : Stream} (part : Bytes) (left : Stream)
    {r : Result (Bytes × Stream)}
    → part ++ stream_data left ≡ stream_data src
    → Copied limit (out ++ part) left r
    → Copied limit out src r
Copied-more {limit} {out} part left e c =
    let same = append_assoc out part c.taken in
    record {
      taken = part ++ c.taken;
      left = c.left;
      returns = c.returns ∙ ap (λ a. ok (a, c.left)) same;
      healthy = c.healthy;
      splits = append_assoc part c.taken (stream_data c.left) ∙ ap (λ t. part ++ t) c.splits ∙ e;
      bounded = subst (λ a. length a ≤ limit) same c.bounded;
      stops = subst (λ a. (length a ≡ limit) ⊎ (c.left ≡ [])) same c.stops;
    }

after_read_more :
    (part : Bytes) (end : ReadEnd) (empty_reads : ℕ) (done more : Result (Bytes × Stream))
    → is_empty part ≡ false
    → end ≡ continues
    → after_read part end empty_reads done more ≡ more
unfolding after_read is_empty
after_read_more [] end empty_reads done more ne e = cc
after_read_more (c ∷ part) end empty_reads done more ne e = rw e

-- One round on a healthy reader with data and room left.
copy_loop_round :
    (fuel buffer limit empty_reads : ℕ) (out b : Bytes) (src : Stream)
    → 0 < buffer
    → length out < limit
    → IsHealthy (chunk b ∷ src)
    → (part : Bytes) × (left : Stream) × (copy_loop
          (suc fuel)
          buffer
          limit
          empty_reads
          out
          (chunk b ∷ src)
        ≡ copy_loop fuel buffer limit 0 (out ++ part) left)
      × (is_empty part ≡ false)
      × (length (out ++ part) ≤ limit)
      × IsHealthy left
      × (part ++ stream_data left ≡ stream_data (chunk b ∷ src))
unfolding copy_loop
copy_loop_round fuel buffer limit empty_reads out b src pos room h =
    let n = min buffer (limit - length out) in
    let r = read n (chunk b ∷ src) in
    let one = read-Reads n b src (omega arith) h in
    let open_limit : leb limit (length out) ≡ false = ground arith in
    (
      r.0,
      r.2,
      rw (
        open_limit,
        after_read_more r.0 r.1 empty_reads _ _ one.nonempty one.goes_on,
        one.nonempty,
      ),
      one.nonempty,
      omega (arith, length-append out r.0, one.fits),
      one.healthy,
      one.splits,
    )

length_pos : (s : Bytes) → is_empty s ≡ false → 0 < length s
unfolding is_empty
length_pos [] h = cc
length_pos (c ∷ s) h = omega arith

copy_loop-Copied :
    (fuel buffer limit empty_reads : ℕ) (out : Bytes) (src : Stream)
    → 0 < buffer
    → IsHealthy src
    → length out ≤ limit
    → length (stream_data src) < fuel
    → Copied limit out src (copy_loop fuel buffer limit empty_reads out src)
copy_loop-Copied zero buffer limit empty_reads out src _ _ _ lt = absurd (omega arith)
copy_loop-Copied (suc fuel) buffer limit empty_reads out (nothing ∷ src) _ h _ _ = absurd h
copy_loop-Copied (suc fuel) buffer limit empty_reads out (failure ∷ src) _ h _ _ = absurd h
copy_loop-Copied (suc fuel) buffer limit empty_reads out [] pos h le lt =
    elim (Bool-cases (leb limit (length out))) [
      | inl full ↦ unfold copy_loop in rw full (Copied-stop limit out [] tt le (inr refl))
      | inr room ↦
          unfold copy_loop after_read read in
          rw (room, append-nil out) (Copied-stop limit out [] tt le (inr refl))
    ]
copy_loop-Copied (suc fuel) buffer limit empty_reads out (chunk b ∷ src) pos h le lt =
    elim (Bool-cases (leb limit (length out))) [
      | inl full ↦
          unfold copy_loop in
          rw full (Copied-stop limit out (chunk b ∷ src) h le (inl (ground arith)))
      | inr room ↦
          let (part, left, round, ne, fits, h', split) =
            copy_loop_round fuel buffer limit empty_reads out b src pos (ground arith) h in
          let shorter = ap length split in
          let ih = copy_loop-Copied fuel buffer limit 0 (out ++ part) left pos h' fits (
            omega
              (arith, length-append part (stream_data left), length_pos part ne, shorter, lt)) in
          rw round (Copied-more part left split ih)
    ]

probe_left :
    (left : Stream) (out : Bytes)
    → IsHealthy left
    → probe (read 1 left).0 (read 1 left).1 out
      ≡ (if is_empty (stream_data left) then ok out else err size_overflow)
unfolding probe read is_empty
probe_left [] out h = refl
probe_left (nothing ∷ left) out h = absurd h
probe_left (failure ∷ left) out h = absurd h
probe_left (chunk [] ∷ left) out (ne, h) = absurd (ne refl)
probe_left (chunk (c ∷ b) ∷ left) out h = ground arith

not_negative : (n : ℕ) → n < 2 ^ 63 → lt_i64 n 0 ≡ false
not_negative n h = ground arith

-- What the copy returns for a payload of this data.
abbrev pub bounded_data : ℕ → Bytes → Result Bytes
bounded_data limit d = if leb (length d) limit then ok d else err size_overflow

finish :
    (limit : ℕ) (t d : Bytes)
    → length t ≤ limit
    → (length t ≡ limit) ⊎ (d ≡ [])
    → (if length t == limit then (if is_empty d then ok t else err size_overflow) else ok t)
      ≡ bounded_data limit (t ++ d)
unfolding is_empty
finish limit t [] le stop = rw append-nil (ground arith)
finish limit t (c ∷ d) le (inl full) = ground (arith, length-append t (c ∷ d))
finish limit t (c ∷ d) le (inr e) = cc

-- From a reader that answers with data until it ends, the bounded copy takes the whole payload if
-- it is not longer than the limit, and fails with the size error if it is, however the payload is
-- cut into answers and whatever the size of the buffer. The limit is an int64 value that is not
-- negative, and the fuel exceeds the length of the payload.
pub copy_payload_bounded_lem :
    (fuel buffer : ℕ) (src : Stream) (limit : ℕ)
    → IsHealthy src
    → limit < 2 ^ 63
    → length (stream_data src) < fuel
    → copy_payload_bounded fuel buffer src limit ≡ bounded_data limit (stream_data src)
copy_payload_bounded_lem fuel buffer src limit h small lt =
    let size = if buffer == 0 then 32768 else buffer in
    let c = copy_loop-Copied fuel size limit 0 [] src (ground arith) h (omega arith) lt in
    let stop : (length c.taken ≡ limit) ⊎ (stream_data c.left ≡ []) = elim c.stops [
      | inl e ↦ inl e
      | inr e ↦ inr (ap stream_data e)
    ] in
    unfold copy_payload_bounded in
    rw (not_negative limit small, c.returns, probe_left c.left c.taken c.healthy)
      (finish limit c.taken (stream_data c.left) c.bounded stop ∙ ap (bounded_data limit) c.splits)
