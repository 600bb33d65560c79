-- ===== src/Results/Names.antt =====
-- src/pipeline_utils.cpp: the names of the files of results, and the directories on the way to one.
use mathlib.Core.List.{append-nil, append_assoc}
use nanosecond_trading_stack.Common.{
  ℕ, ◌+◌, ◌/◌, ◌%◌, ◌^◌, ◌<◌, ◌≡◌, refl, ap, ◌∙◌, sym, List, [], ◌∷◌, ◌++◌, lt→ltb, get_or, arith,
  Bool-cases, inl, inr, ◌==◌,
}
use nanosecond_trading_stack.Results.{
  Tm, utc_timestamp, zero_padded, digits, report_path, mkdirs, mkdirs_from, slash, live_results_dir,
}

-- A time as `gmtime_r` gives it, up to the year 9999. A second may be a leap second.
pub record IsTime (t : Tm) : Type 0 where
  pub year : t.tm_year + 1900 < 10000
  pub mon : t.tm_mon < 12
  pub mday : t.tm_mday < 32
  pub hour : t.tm_hour < 24
  pub minute : t.tm_min < 60
  pub second : t.tm_sec < 61

zero_padded-digits : (w n : ℕ) → n < 10 ^ w → zero_padded w n ≡ digits w n
unfolding zero_padded
zero_padded-digits w n h = rw (lt→ltb n (10 ^ w) h) refl

abbrev plain_timestamp : Tm → List ℕ
plain_timestamp t =
    digits 4 (t.tm_year + 1900)
    ++ (digits 2 (t.tm_mon + 1)
        ++ (digits 2 t.tm_mday
            ++ (b'T' ∷ (digits 2 t.tm_hour ++ (digits 2 t.tm_min ++ digits 2 t.tm_sec)))))

utc_timestamp-plain : (t : Tm) → IsTime t → utc_timestamp t ≡ plain_timestamp t
unfolding utc_timestamp
utc_timestamp-plain t v =
    rw
      (
        zero_padded-digits 4 (t.tm_year + 1900) v.year,
        zero_padded-digits 2 (t.tm_mon + 1) (omega (arith, v.mon)),
        zero_padded-digits 2 t.tm_mday (omega (arith, v.mday)),
        zero_padded-digits 2 t.tm_hour (omega (arith, v.hour)),
        zero_padded-digits 2 t.tm_min (omega (arith, v.minute)),
        zero_padded-digits 2 t.tm_sec (omega (arith, v.second)),
      )
      refl

two_digits : (n m : ℕ) → n < 100 → m < 100 → n / 10 % 10 ≡ m / 10 % 10 → n % 10 ≡ m % 10 → n ≡ m
two_digits n m hn hm e0 e1 = omega arith

four_digits :
    (n m : ℕ)
    → n < 10000
    → m < 10000
    → n / 10 / 10 / 10 % 10 ≡ m / 10 / 10 / 10 % 10
    → n / 10 / 10 % 10 ≡ m / 10 / 10 % 10
    → n / 10 % 10 ≡ m / 10 % 10
    → n % 10 ≡ m % 10
    → n ≡ m
four_digits n m hn hm e0 e1 e2 e3 = omega arith

-- Runs that end in different seconds are saved in different files: the name of the file determines
-- the time, up to the year 9999.
pub report_path_injective :
    (t t' : Tm) → IsTime t → IsTime t' → report_path t ≡ report_path t' → t ≡ t'
report_path_injective t t' v v' e =
    let names : live_results_dir
          ++ (slash ∷ (plain_timestamp t ++ (b'.' ∷ b't' ∷ b'x' ∷ b't' ∷ [])))
        ≡ live_results_dir ++ (slash ∷ (plain_timestamp t' ++ (b'.' ∷ b't' ∷ b'x' ∷ b't' ∷ []))) =
      rw (utc_timestamp-plain t v, utc_timestamp-plain t' v') at e in
    let byte = λ (i : ℕ). ap (λ (l : List ℕ). get_or l i 0) names in
    let year : t.tm_year + 1900 ≡ t'.tm_year + 1900 =
      four_digits (t.tm_year + 1900) (t'.tm_year + 1900) v.year v'.year (omega (arith, byte 19))
        (omega (arith, byte 20)) (omega (arith, byte 21)) (omega (arith, byte 22)) in
    let mon : t.tm_mon + 1 ≡ t'.tm_mon + 1 =
      two_digits (t.tm_mon + 1) (t'.tm_mon + 1) (omega (arith, v.mon)) (omega (arith, v'.mon))
        (omega (arith, byte 23)) (omega (arith, byte 24)) in
    let mday : t.tm_mday ≡ t'.tm_mday =
      two_digits t.tm_mday t'.tm_mday (omega (arith, v.mday)) (omega (arith, v'.mday))
        (omega (arith, byte 25)) (omega (arith, byte 26)) in
    let hour : t.tm_hour ≡ t'.tm_hour =
      two_digits t.tm_hour t'.tm_hour (omega (arith, v.hour)) (omega (arith, v'.hour))
        (omega (arith, byte 28)) (omega (arith, byte 29)) in
    let minute : t.tm_min ≡ t'.tm_min =
      two_digits t.tm_min t'.tm_min (omega (arith, v.minute)) (omega (arith, v'.minute))
        (omega (arith, byte 30)) (omega (arith, byte 31)) in
    let second : t.tm_sec ≡ t'.tm_sec =
      two_digits t.tm_sec t'.tm_sec (omega (arith, v.second)) (omega (arith, v'.second))
        (omega (arith, byte 32)) (omega (arith, byte 33)) in
    let years : t.tm_year ≡ t'.tm_year = omega (arith, year) in
    let months : t.tm_mon ≡ t'.tm_mon = omega (arith, mon) in
    λ i. record {
      tm_year = years i;
      tm_mon = months i;
      tm_mday = mday i;
      tm_hour = hour i;
      tm_min = minute i;
      tm_sec = second i;
    }

-- What `mkdirs_from` does for a path that goes on.
mkdirs_from-append :
    (partial a b : List ℕ)
    → mkdirs_from partial (a ++ b) ≡ mkdirs_from partial a ++ mkdirs_from (partial ++ a) b
unfolding mkdirs_from
mkdirs_from-append partial [] b = ap (λ (p : List ℕ). mkdirs_from p b) (sym (append-nil partial))
mkdirs_from-append partial (c ∷ a) b =
    let rest = mkdirs_from-append (partial ++ (c ∷ [])) a b in
    let same : (partial ++ (c ∷ [])) ++ a ≡ partial ++ (c ∷ a) = append_assoc partial (c ∷ []) a in
    elim (Bool-cases (c == slash)) [
      | inl e ↦ rw e (
          ap (λ l. (partial ++ (c ∷ [])) ∷ l)
            (rest
              ∙ ap (λ (p : List ℕ). mkdirs_from (partial ++ (c ∷ [])) a ++ mkdirs_from p b) same))
      | inr e ↦
          rw e (
            rest ∙ ap (λ (p : List ℕ). mkdirs_from (partial ++ (c ∷ [])) a ++ mkdirs_from p b) same)
    ]

-- On the way to a path, `mkdirs` makes every directory before those below it: what it makes for the
-- part before a slash, then the directory that ends there, then the rest, and last the path itself.
pub mkdirs_in_order :
    (dir rest : List ℕ)
    → mkdirs (dir ++ (slash ∷ rest)) ≡ (
        mkdirs_from [] dir
        ++ ((dir ++ (slash ∷ []))
            ∷ (mkdirs_from (dir ++ (slash ∷ [])) rest ++ ((dir ++ (slash ∷ rest)) ∷ []))))
unfolding mkdirs mkdirs_from
mkdirs_in_order dir rest =
    ap (λ l. l ++ ((dir ++ (slash ∷ rest)) ∷ [])) (mkdirs_from-append [] dir (slash ∷ rest))
    ∙ append_assoc (mkdirs_from [] dir) _ _
