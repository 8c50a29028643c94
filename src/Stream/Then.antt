-- ===== src/Stream/Then.antt =====
-- Statements in a row, and what holds after them if they go on.
use jack_courier_driver_pglg.Prelude.{◌≡◌, refl, Bool, true, false, if◌then◌else◌}
use mathlib.Core.Path.{subst}
use jack_courier_driver_pglg.Errors.{Error, ok, err}
use jack_courier_driver_pglg.Stream.{Stream, Round, ◌▹◌}

abbrev pub Ends : (Stream → Type 0) → Round → Type 0
Ends P (ok u, s) = P s
Ends P (err e, s) = Unit

-- If the statements go on, the stream that they leave satisfies `P`.
pub record Then (P : Stream → Type 0) (r : Round) : Type 0 where
  pub ends : Ends P r

module _ {P : Stream → Type 0} where
  pub on : (u : Unit {0}) (s : Stream) → P s → Then P (ok u, s)
  on u s h = record { ends = h }

  pub off : (e : Error) (s : Stream) → Then P (err e, s)
  off e s = record { ends = tt }

  pub Then-▹ :
      {Q : Stream → Type 0} (r : Round) (k : Stream → Round)
      → Then Q r
      → ((s : Stream) → Q s → Then P (k s))
      → Then P (r ▹ k)
  Then-▹ (ok u, s) k h f = f s h.ends
  Then-▹ (err e, s) k h f = off e s

  pub Then-if :
      (b : Bool) (r t : Round)
      → (b ≡ true → Then P r)
      → (b ≡ false → Then P t)
      → Then P (if b then r else t)
  Then-if true r t hr ht = hr refl
  Then-if false r t hr ht = ht refl

  pub Then-here : {r : Round} → Then P r → Then (λ s. P s × (s ≡ r.1)) r
  Then-here {r = (ok u, s)} h = record { ends = (h.ends, refl) }
  Then-here {r = (err e, s)} h = record { ends = tt }

  pub Then-ran : {r : Round} → Then P r → Then (λ s. P s × (r ≡ (ok tt, s))) r
  Then-ran {r = (ok u, s)} h = record { ends = (h.ends, refl) }
  Then-ran {r = (err e, s)} h = record { ends = tt }

  pub Then-ok : {r : Round} {s : Stream} → Then P r → r ≡ (ok tt, s) → P s
  Then-ok h e = subst (Ends P) e h.ends

  pub Then-imp :
      {Q : Stream → Type 0} {r : Round} → Then Q r → ((s : Stream) → Q s → P s) → Then P r
  Then-imp {r = (ok u, s)} h f = on u s (f s h.ends)
  Then-imp {r = (err e, s)} h f = off e s
