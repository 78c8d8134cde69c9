-- ===== src/Base64/Buffer.antt =====
-- One call of the encoder, on a line of the buffer.
use mathlib.Core.List.{append_assoc}
use mathlib.Core.Path.{subst}
use uld_fdpic.Common.{
  ℕ, ◌+◌, ◌-◌, ◌%◌, ◌<◌, ◌≡◌, refl, sym, ap, ◌∙◌, arith, ◌⊎◌, inl, inr, some, List, [], ◌∷◌, ◌++◌,
  All, length, length-append, pos,
}
use uld_fdpic.Mem.{Mem, writes}
use uld_fdpic.Base64.{State, Loop, Encoded, store_loop, encode_started}
use uld_fdpic.Base64.Text.{text_from}
use uld_fdpic.Base64.Holds.{Holds, writes-Holds, writes-Holds_before, Holds-append, IsPlain-append}
use uld_fdpic.Base64.Line.{encode_loop-Runs}
use uld_fdpic.Base64.Bytes.{Fits, IsRun}
use uld_fdpic.Base64.Open.{IsClosed, IsOpen}

-- A call with some bytes, from a line that has the characters `cs`.
pub record IsCalled (dest : ℕ) (bs : List ℕ) (whole : List ℕ) (r : Encoded) (ds : List ℕ)
    : Type 0 where
  pub text : whole ≡ ds ++ text_from r.state.brem r.state.brem_len r.rest
  pub ret : r.ret ≡ pos (length r.rest)
  pub shorter : length r.rest < length bs
  pub bytes : All (λ b. b < 256) r.rest
  pub grows : 0 < length ds
  pub ends : IsClosed r.memory dest r.state ds ⊎ ((r.rest ≡ []) × IsOpen r.memory dest r.state ds)

module _ (m : Mem) (dest : ℕ) (s : State) (cs : List ℕ) (h : IsOpen m dest s cs) where
  abbrev rem : ℕ
  rem = s.dest_len - s.dest_pos

  pub written-Holds :
      (c : Mem) (xs : List ℕ) → c ≡ writes m (dest + s.dest_pos) xs → Holds c dest (cs ++ xs)
  written-Holds c xs e =
      let place : dest + s.dest_pos ≡ dest + length cs = omega (arith, h.at) in
      subst (λ c. Holds c dest (cs ++ xs)) (sym (e ∙ ap (λ a. writes m a xs) place))
        (Holds-append (writes m (dest + length cs) xs) dest cs xs
          (writes-Holds_before m (dest + length cs) dest cs xs (omega arith) h.holds)
          (writes-Holds m (dest + length cs) xs))

  stored-IsCalled :
      (bs : List ℕ) (out : Loop × List ℕ) (ds : List ℕ)
      → IsRun m (dest + s.dest_pos) rem (text_from s.brem s.brem_len bs) out ds
      → length out.1 < length bs
      → 0 < length ds
      → All (λ b. b < 256) out.1
      → IsCalled dest bs
          (cs ++ text_from s.brem s.brem_len bs)
          (store_loop s (some out) m bs)
          (cs ++ ds)
  unfolding store_loop
  stored-IsCalled bs out ds run shorter grows bytes = record {
    text =
        ap (λ t. cs ++ t) run.text
        ∙ sym (append_assoc cs ds (text_from out.0.brem out.0.brem_len out.1));
    ret = refl;
    shorter = shorter;
    bytes = bytes;
    grows = omega (arith, length-append cs ds, grows);
    ends = elim run.ends [
      | inl (full, whole, size, mem) ↦ inl (record {
        line = record {
          init = h.line.init;
          final = h.line.final;
          groups = h.line.groups;
          least = h.line.least;
          most = h.line.most;
        };
        at = omega (arith, full, h.line.most);
        whole = whole;
        size = omega (arith, size, length-append cs ds, h.at, h.fits.2);
        holds =
            subst (λ t. Holds out.0.memory dest t) (sym (append_assoc cs ds (0 ∷ [])))
              (written-Holds out.0.memory (ds ++ 0 ∷ []) mem);
        plain = IsPlain-append cs ds h.plain run.plain;
      })
      | inr (used, size, fits, mem) ↦
          let at : (s.dest_len - out.0.dest_rem) % 256 ≡ length cs + length ds =
            omega (arith, size, h.at, h.fits.2, h.line.most) in
          let rem_same : s.dest_len - (s.dest_len - out.0.dest_rem) % 256 ≡ out.0.dest_rem =
            omega (arith, size, h.at, h.fits.2, h.line.most) in
          inr (
            used,
            record {
              line = record {
                init = h.line.init;
                final = h.line.final;
                groups = h.line.groups;
                least = h.line.least;
                most = h.line.most;
              };
              at = at ∙ sym (length-append cs ds);
              fits = subst (λ n. Fits out.0.brem_len n) (sym rem_same) fits;
              left = run.left;
              holds = written-Holds out.0.memory ds mem;
              plain = IsPlain-append cs ds h.plain run.plain;
            },
          )
    ];
  }

  -- One call.
  pub started-IsCalled :
      (b : ℕ) (bs : List ℕ)
      → All (λ b. b < 256) (b ∷ bs)
      → (ds : List ℕ) × IsCalled dest
          (b ∷ bs)
          (cs ++ text_from s.brem s.brem_len (b ∷ bs))
          (encode_started m dest (some (b ∷ bs)) s)
          ds
  unfolding encode_started
  started-IsCalled b bs bytes =
      let (out, ds, e, run, grows, le, small) =
        encode_loop-Runs (b ∷ bs) m (dest + s.dest_pos) rem s.brem s.brem_len h.fits h.left bytes in
      let g = grows (omega arith) in
      (
        cs ++ ds,
        subst
            (λ o.
              IsCalled dest (b ∷ bs) (cs ++ text_from s.brem s.brem_len (b ∷ bs))
                (store_loop s o m (b ∷ bs)) (cs ++ ds))
            (sym e) (stored-IsCalled (b ∷ bs) out ds run g.1 g.0 small),
      )
