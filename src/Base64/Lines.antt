-- ===== src/Base64/Lines.antt =====
-- The encoder's output through a callback, line by line.
use mathlib.Core.List.{append_assoc}
use mathlib.Core.Path.{subst}
use uld_fdpic.Common.{
  ℕ, zero, suc, ◌<◌, ◌≤◌, ◌≡◌, ◌≢◌, refl, sym, ap, ◌∙◌, arith, ◌⊎◌, inl, inr, false, some, List, [],
  ◌∷◌, ◌++◌, ◌||◌, All, length, ℤ, pos, is_neg, is_zero,
}
use uld_fdpic.Mem.{Mem}
use uld_fdpic.Base64.{State, Encoded, encode_started}
use uld_fdpic.Base64.Calls.{Output, after_call, encode_lines}
use uld_fdpic.Base64.Text.{text_from}
use uld_fdpic.Base64.Buffer.{IsCalled, started-IsCalled}
use uld_fdpic.Base64.Open.{IsOpen, IsClosed, Starts, reset, closed-Starts, reset-IsOpen}

unfoldable pub concat : List (List ℕ) → List ℕ
concat [] = []
concat (xs ∷ xss) = xs ++ concat xss

List-cases : (xs : List ℕ) → (xs ≡ []) ⊎ ((b : ℕ) × (bs : List ℕ) × (xs ≡ b ∷ bs))
List-cases [] = inl refl
List-cases (b ∷ bs) = inr (b, bs, refl)

-- What was sent, and what the buffer and the state still have, are the text `whole`.
pub record Sent (dest : ℕ) (whole : List ℕ) (o : Output) : Type 0 where
  pub buffer : List ℕ
  pub ret : o.ret ≡ pos 0
  pub text : concat o.lines ++ (buffer ++ text_from o.state.brem o.state.brem_len []) ≡ whole
  pub some_text : 0 < length buffer
  pub ends : IsClosed o.memory dest o.state buffer ⊎ IsOpen o.memory dest o.state buffer

module _ (cb : List ℕ → ℤ) (send : Mem → ℕ → State → List ℕ)
    (never : (line : List ℕ) → is_neg (cb line) ≡ false)
    (sends : (m : Mem) (dest : ℕ) (s : State) (cs : List ℕ)
      → IsClosed m dest s cs
      → send m dest s ≡ cs)
    (dest : ℕ) (not_null : dest ≢ 0) where
  after_call-last :
      (next : Encoded → Output) (bs whole ds : List ℕ) (r : Encoded)
      → IsCalled dest bs whole r ds
      → r.rest ≡ []
      → Sent dest whole (after_call cb send next dest r)
  unfolding concat
  after_call-last next bs whole ds r h used =
      let done : r.ret ≡ pos 0 = h.ret ∙ ap (λ t. pos (length t)) used in
      rw done (record {
        buffer = ds;
        ret = refl;
        text = sym (h.text ∙ ap (λ t. ds ++ text_from r.state.brem r.state.brem_len t) used);
        some_text = h.grows;
        ends = elim h.ends [ inl closed ↦ inl closed | inr (x, opened) ↦ inr opened ];
      })

  after_call-more :
      (next : Encoded → Output) (bs whole ds : List ℕ) (r : Encoded) (n : ℕ)
      → IsCalled dest bs whole r ds
      → r.ret ≡ pos (suc n)
      → IsClosed r.memory dest r.state ds
      → Sent dest (text_from r.state.brem r.state.brem_len r.rest) (next r)
      → Sent dest whole (after_call cb send next dest r)
  unfolding concat
  after_call-more next bs whole ds r n h more closed sent =
      let goes : (is_neg r.ret || is_zero r.ret) ≡ false = ap (λ z. is_neg z || is_zero z) more in
      rw (goes, never (send r.memory dest r.state), sends r.memory dest r.state ds closed)
        (record {
          buffer = sent.buffer;
          ret = sent.ret;
          text =
              append_assoc ds (concat (next r).lines) _ ∙ ap (λ t. ds ++ t) sent.text ∙ sym h.text;
          some_text = sent.some_text;
          ends = sent.ends;
        })

  -- Bytes that are left over mean that the line is full.
  still_closed :
      (bs whole ds : List ℕ) (r : Encoded) (c : ℕ) (rest : List ℕ)
      → IsCalled dest bs whole r ds
      → r.rest ≡ c ∷ rest
      → IsClosed r.memory dest r.state ds
  still_closed bs whole ds r c rest h more = elim h.ends [
    | inl closed ↦ closed
    | inr (used, opened) ↦ absurd (ground (arith, ap length (sym used ∙ more)))
  ]

  pub encode_lines-Sent :
      (left : ℕ) (m : Mem) (s t : State) (cs : List ℕ) (b : ℕ) (bs : List ℕ)
      → suc (length bs) ≤ left
      → Starts m dest s t
      → IsOpen m dest t cs
      → All (λ b. b < 256) (b ∷ bs)
      → Sent dest
          (cs ++ text_from t.brem t.brem_len (b ∷ bs))
          (encode_lines cb send left m dest (b ∷ bs) s)
  unfolding encode_lines
  encode_lines-Sent zero m s t cs b bs le starts opened bytes = absurd (omega (arith, le))
  encode_lines-Sent (suc left) m s t cs b bs le starts opened bytes =
      let r = encode_started m dest (some (b ∷ bs)) t in
      let next = λ (r : Encoded). encode_lines cb send left r.memory dest r.rest r.state in
      let whole = cs ++ text_from t.brem t.brem_len (b ∷ bs) in
      let (ds, h) = started-IsCalled m dest t cs opened b bs bytes in
      subst (λ r. Sent dest whole (after_call cb send next dest r)) (sym (starts (some (b ∷ bs))))
        (elim (List-cases r.rest) [
          | inl used ↦ after_call-last next (b ∷ bs) whole ds r h used
          | inr (c, rest, more) ↦
              let closed = still_closed (b ∷ bs) whole ds r c rest h more in
              let ret : r.ret ≡ pos (suc (length rest)) = h.ret ∙ ap (λ t. pos (length t)) more in
              after_call-more next (b ∷ bs) whole ds r (length rest) h ret closed (
                subst
                  (λ x.
                    Sent dest (text_from r.state.brem r.state.brem_len x)
                      (encode_lines cb send left r.memory dest x r.state))
                  (sym more)
                  (encode_lines-Sent left r.memory r.state (reset r.state) [] c rest
                    (omega (arith, le, h.shorter, ap length more))
                    (closed-Starts r.memory dest r.state ds not_null closed)
                    (reset-IsOpen r.memory dest r.state ds closed)
                    (subst (λ x. All (λ b. b < 256) x) more h.bytes)))
        ])
