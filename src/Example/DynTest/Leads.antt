-- ===== src/Example/DynTest/Leads.antt =====
-- Conditions in front of and after the steps of the example programs: what is added so far to the
-- variables of the garage.
use uld_fdpic.Common.{ℕ, ◌≤◌, ◌≡◌, refl, ap, ◌∙◌, arith, Option, some, List, ℤ, pos}
use Prim.Native.String.{String}
use uld_fdpic.Libc.Stdio.{File, _uld_putchar}
use uld_fdpic.Libc.Stdio.Format.{Arg}
use uld_fdpic.Libc.Stdio.Count.{IsTaking}
use uld_fdpic.Print.{Printer, ◌>>◌, continue, result}
use uld_fdpic.Print.Returns.{Returns, Returns-fprintf}
use uld_fdpic.Example.World.{Garage, World, on_device, with_device, set_garage, putchar, printf}
use uld_fdpic.Example.Garage.Counts.{Delta, ◌⊕◌, raised, raised-raised}

module _ (S : Type 0) (stdout : File S) (written : S → ℕ) (takes : IsTaking S stdout written) where
  module _ (start : Garage) where
    -- A run that returns, stops at no breakpoint, leaves the table alone and takes nothing back; the
    -- garage has `d` more than at the start.
    pub record Ends (d : Delta) (w : World S) (o : Option (ℤ × World S)) : Type 0 where
      pub value : ℤ
      pub after : World S
      pub returns : o ≡ some (value, after)
      pub garage : after.garage ≡ raised d start
      pub ftable : after.ftable ≡ w.ftable
      pub breakpoints : after.breakpoints ≡ w.breakpoints
      pub more : written w.device ≤ written after.device

    pub record Leads (d : Delta) (p : Printer (World S)) (e : Delta) : Type 0 where
      pub run : (w : World S) → w.garage ≡ raised d start → Ends e w (p w)

    pub Leads-then :
        (d e f : Delta) (p q : Printer (World S)) → Leads d p e → Leads e q f → Leads d (p >> q) f
    Leads-then d e f p q first second = record {
      run = λ w at.
          let now = first.run w at in
          let rest = second.run now.after now.garage in
          record {
            value = rest.value;
            after = rest.after;
            returns = ap (continue (λ r. q)) now.returns ∙ rest.returns;
            garage = rest.garage;
            ftable = rest.ftable ∙ now.ftable;
            breakpoints = rest.breakpoints ∙ now.breakpoints;
            more = omega (arith, now.more, rest.more);
          };
    }

    pub Leads-result : (d : Delta) (r : ℤ) → Leads d (result r) d
    Leads-result d r = record {
      run = λ w at. record {
        value = r;
        after = w;
        returns = refl;
        garage = at;
        ftable = refl;
        breakpoints = refl;
        more = omega arith;
      };
    }

    -- A change of the garage only.
    pub Leads-change :
        (d e : Delta) (f : Garage → Garage)
        → ((g : Garage) → f g ≡ raised e g)
        → Leads d (λ w. set_garage (f w.garage) w) (d ⊕ e)
    Leads-change d e f adds = record {
      run = λ w at. record {
        value = pos 0;
        after = record w { garage = f w.garage };
        returns = refl;
        garage = adds w.garage ∙ ap (raised e) at ∙ raised-raised d e start;
        ftable = refl;
        breakpoints = refl;
        more = omega arith;
      };
    }

    pub Leads-on_device :
        (d : Delta) (p : Printer S)
        → ((s : S) → Returns S stdout written takes s (p s))
        → Leads d (on_device p) d
    Leads-on_device d p done = record {
      run = λ w at.
          let run = done w.device in
          record {
            value = run.value;
            after = record w { device = run.after };
            returns = ap (with_device w) run.returns;
            garage = at;
            ftable = refl;
            breakpoints = refl;
            more = run.more;
          };
    }

    pub Leads-printf :
        (d : Delta) (format : String) (args : List Arg) → Leads d (printf stdout format args) d
    Leads-printf d format args =
        Leads-on_device d _ (λ s. Returns-fprintf S stdout written takes format args s)

    pub Leads-putchar : (d : Delta) (c : ℕ) → Leads d (putchar stdout c) d
    unfolding _uld_putchar
    Leads-putchar d c = Leads-on_device d _ (λ s. record {
      value = (stdout.dputchar_f stdout.fd c s).0;
      after = (stdout.dputchar_f stdout.fd c s).1;
      returns = refl;
      more = omega (arith, takes.put_one c s);
    })

infixr 4 ◌then◌
abbrev pub ◌then◌ :
    {S : Type 0} {stdout : File S} {written : S → ℕ} {takes : IsTaking S stdout written}
    → {start : Garage} {d e f : Delta} {p q : Printer (World S)}
    → Leads S stdout written takes start d p e
    → Leads S stdout written takes start e q f
    → Leads S stdout written takes start d (p >> q) f
◌then◌ {S} {stdout} {written} {takes} {start} {d} {e} {f} {p} {q} first second =
    Leads-then S stdout written takes start d e f p q first second
