-- ===== src/AsyncLog/Kept.antt =====
-- What a run keeps of the text that it accepted.
use mkwii_ps.Base.{ℕ, ◌+◌, ◌≡◌, ap, arith, List, [], ◌∷◌, ◌++◌, length, length-append}
use mathlib.Core.List.{Sublist, sublist-append_right}
use mathlib.Core.List.Sublist as Sublist

pub record Kept (text : List ℕ) (lost : ℕ) (accepted : List ℕ) : Type 0 where
  pub order : Sublist text accepted
  pub whole : lost ≡ 0 → text ≡ accepted
  pub counted : length text + lost ≡ length accepted

pub Kept-append :
    (text : List ℕ) (lost : ℕ) (accepted more : List ℕ)
    → Kept text lost accepted
    → Kept (text ++ more) lost (accepted ++ more)
Kept-append text lost accepted more k = record {
  order = Sublist.append k.order (Sublist.refl more);
  whole = λ e. ap (λ l. l ++ more) (k.whole e);
  counted = omega (arith, k.counted, length-append text more, length-append accepted more);
}

-- A part in the middle is lost.
pub Kept-lose :
    (front part rest : List ℕ) (lost : ℕ) (accepted : List ℕ)
    → Kept (front ++ (part ++ rest)) lost accepted
    → Kept (front ++ rest) (lost + length part) accepted
Kept-lose front [] rest lost accepted k = record {
  order = k.order;
  whole = λ e. k.whole (omega arith);
  counted = omega (arith, k.counted);
}
Kept-lose front (x ∷ part) rest lost accepted k = record {
  order =
      Sublist.trans (Sublist.append (Sublist.refl front) (sublist-append_right (x ∷ part) rest))
        k.order;
  whole = λ e. absurd (omega arith);
  counted = omega (
    arith,
    k.counted,
    length-append front rest,
    length-append front ((x ∷ part) ++ rest),
    length-append part rest,
  );
}
