-- ===== src/Printf/Format/Sink.antt =====
-- `kprintf` treats its sink as a place for characters only: it prints the same characters to every
-- sink, and their number is its result.
use bios_qemu_tz_arm.Prelude.{
  ℕ, zero, suc, ◌+◌, ◌-◌, ◌^◌, ◌≡◌, refl, sym, ap, ◌∙◌, Bool, true, false, ◌&&◌, not, Bool-cases,
  inl, inr, List, [], ◌∷◌, ◌==◌, ltb, length, if◌then◌else◌, arith,
}
use bios_qemu_tz_arm.Run.{Run, ok, hang, fault, out_of_fuel, ◌>>=◌}
use bios_qemu_tz_arm.Printf.Args.{int, Arg, fresh, next_char}
use bios_qemu_tz_arm.Printf.Fields.{Field, Outcome, field, store, done}
use bios_qemu_tz_arm.Printf.Directive.{directive}
use bios_qemu_tz_arm.Printf.Format.{
  or_zero, expanded, real_size, Printed, put_n, put_text, put_field, put_result, conclude,
  format_loop, kprintf,
}

abbrev pub map_printed : {S T : Type 0} → (S → T) → Printed S → Printed T
map_printed f p = record { sink = f p.sink; ret = p.ret; stored = p.stored }

-- The same on what a run returns.
abbrev pub map_run : {A B : Type 0} → (A → B) → Run A → Run B
map_run g (ok a) = ok (g a)
map_run g hang = hang
map_run g fault = fault
map_run g out_of_fuel = out_of_fuel

map_run->>= :
    {A B C : Type 0} (g : B → C) (m : Run A) (k : A → Run B) (k' : A → Run C)
    → ((a : A) → k' a ≡ map_run g (k a))
    → (m >>= k') ≡ map_run g (m >>= k)
map_run->>= g (ok a) k k' h = h a
map_run->>= g hang k k' h = refl
map_run->>= g fault k k' h = refl
map_run->>= g out_of_fuel k k' h = refl

>>=-map_run :
    {A A' B B' : Type 0} (g : A → A') (g' : B → B') (m : Run A) (k : A → Run B) (k' : A' → Run B')
    → ((a : A) → k' (g a) ≡ map_run g' (k a))
    → (map_run g m >>= k') ≡ map_run g' (m >>= k)
>>=-map_run g g' (ok a) k k' h = h a
>>=-map_run g g' hang k k' h = refl
>>=-map_run g g' fault k k' h = refl
>>=-map_run g g' out_of_fuel k k' h = refl

if-map :
    {A B : Type 0} (f : A → B) (b : Bool) {x y : A} {x' y' : B}
    → f x ≡ x'
    → f y ≡ y'
    → f (if b then x else y) ≡ (if b then x' else y')
if-map f true hx hy = hx
if-map f false hx hy = hy

module _ {S T : Type 0} (put : ℕ → S → S) (put' : ℕ → T → T) (f : S → T)
    (hom : (c : ℕ) (s : S) → f (put c s) ≡ put' c (f s)) where
  put_n-map : (n c : ℕ) (s : S) {t : T} → f s ≡ t → f (put_n put n c s) ≡ put_n put' n c t
  unfolding put_n
  put_n-map zero c s h = h
  put_n-map (suc n) c s h = put_n-map n c (put c s) (hom c s ∙ ap (put' c) h)

  put_text-map :
      (text : List ℕ) (s : S) {t : T} → f s ≡ t → f (put_text put text s) ≡ put_text put' text t
  unfolding put_text
  put_text-map [] s h = h
  put_text-map (c ∷ text) s h = put_text-map text (put c s) (hom c s ∙ ap (put' c) h)

  put_field-map : (fd : Field) (s : S) → f (put_field put fd s) ≡ put_field put' fd (f s)
  unfolding put_field
  put_field-map fd s =
      let flags = fd.conv.flags in
      let pad = fd.conv.width - expanded fd in
      let e1 = if-map f (not flags.ladjust && not flags.zeropad) (put_n-map pad 32 s refl) refl in
      let e2 = if-map f (not (fd.conv.sign == 0)) (hom fd.conv.sign _ ∙ ap (put' fd.conv.sign) e1) (
        if-map f flags.hexprefix (hom fd.ch _ ∙ ap (put' fd.ch) (hom 48 _ ∙ ap (put' 48) e1)) e1) in
      let e3 = if-map f (not flags.ladjust && flags.zeropad) (put_n-map pad 48 _ e2) e2 in
      let e5 = put_text-map fd.text _ (put_n-map (or_zero fd.dprec - length fd.text) 48 _ e3) in
      if-map f flags.ladjust (put_n-map pad 32 _ e5) e5

  -- The sink after a field.
  put_result-map :
      (fd : Field) (p : Printed S)
      → put_result put' fd (map_printed f p) ≡ map_run (map_printed f) (put_result put fd p)
  unfolding put_result
  put_result-map fd p = map_run->>= (map_printed f) (real_size fd) _ _ (λ size.
      map_run->>= (map_printed f) (int _) _ _ (λ ret.
        ap (λ sink. ok (record { sink = sink; ret = ret; stored = p.stored }))
          (sym (put_field-map fd p.sink))))

  conclude-map :
      (next : List ℕ → List Arg → Printed S → Run (Printed S))
      → (next' : List ℕ → List Arg → Printed T → Run (Printed T))
      → ((fmt : List ℕ) (args : List Arg) (p : Printed S)
          → next' fmt args (map_printed f p) ≡ map_run (map_printed f) (next fmt args p))
      → (p : Printed S) (out : Outcome × List ℕ × List Arg)
      → conclude put' next' (map_printed f p) out
        ≡ map_run (map_printed f) (conclude put next p out)
  unfolding conclude
  conclude-map next next' h p (field fd, fmt, args) = rw (put_result-map fd p) (
      >>=-map_run (map_printed f) (map_printed f) (put_result put fd p) (next fmt args)
        (next' fmt args) (h fmt args))
  conclude-map next next' h p (store v, fmt, args) = h fmt args _
  conclude-map next next' h p (done, fmt, args) = refl

  pub format_loop-map :
      (fuel : ℕ) (fmt : List ℕ) (args : List Arg) (p : Printed S)
      → format_loop put' fuel fmt args (map_printed f p)
        ≡ map_run (map_printed f) (format_loop put fuel fmt args p)
  unfolding format_loop
  format_loop-map zero fmt args p = refl
  format_loop-map (suc fuel) [] args p = refl
  format_loop-map (suc fuel) (c ∷ fmt) args p = elim (Bool-cases (c == 0)) [
    | inl e ↦ rw (e, format_loop) refl
    | inr e ↦ elim (Bool-cases (c == 37)) [
      | inr e' ↦
          rw (e, e', format_loop, sym (hom c p.sink))
            (map_run->>= (map_printed f) (int (p.ret + 1)) _ _
              (λ ret. format_loop-map fuel fmt args (record p { sink = put c p.sink; ret = ret })))
      | inl e' ↦
          rw (e, e', format_loop)
            (map_run->>= (map_printed f)
              (directive (suc (length fmt)) p.ret (next_char fmt).0 fresh (next_char fmt).1 args)
              (conclude put (format_loop put fuel) p)
              (conclude put' (format_loop put' fuel) (map_printed f p))
              (conclude-map (format_loop put fuel) (format_loop put' fuel) (format_loop-map fuel)
                p))
    ]
  ]

-- The number of characters, as a sink.
abbrev pub count : ℕ → ℕ → ℕ
count c n = suc n

put_n-count : (n c k : ℕ) → put_n count n c k ≡ n + k
unfolding put_n
put_n-count zero c k = omega arith
put_n-count (suc n) c k = omega (arith, put_n-count n c (suc k))

put_text-count : (text : List ℕ) (k : ℕ) → put_text count text k ≡ length text + k
unfolding put_text
put_text-count [] k = omega arith
put_text-count (c ∷ text) k = omega (arith, put_text-count text (suc k))

put_field-count :
    (fd : Field) (k : ℕ)
    → put_field count fd k
      ≡ k + (if ltb (expanded fd) fd.conv.width then fd.conv.width else expanded fd)
unfolding put_field expanded
put_field-count fd k = simp (put_n-count, put_text-count) (ground arith)

-- The run, if it returns, counts what it printed.
abbrev pub Counts : Run (Printed ℕ) → Type 0
Counts (ok p) = p.ret ≡ p.sink
Counts hang = Unit {0}
Counts fault = Unit {0}
Counts out_of_fuel = Unit {0}

>>=-Counts :
    {A : Type 0} (m : Run A) (k : A → Run (Printed ℕ)) → ((a : A) → Counts (k a)) → Counts (m >>= k)
>>=-Counts (ok a) k h = h a
>>=-Counts hang k h = tt
>>=-Counts fault k h = tt
>>=-Counts out_of_fuel k h = tt

-- An `int` that fits is the number.
int-Counts : (n : ℕ) (k : ℕ → Run (Printed ℕ)) → Counts (k n) → Counts (int n >>= k)
int-Counts n k h = elim (Bool-cases (ltb n (2 ^ 31))) [ inl e ↦ rw e h | inr e ↦ rw e tt ]

put_result-Counts :
    (fd : Field) (p : Printed ℕ) (k : Printed ℕ → Run (Printed ℕ))
    → p.ret ≡ p.sink
    → ((p' : Printed ℕ) → p'.ret ≡ p'.sink → Counts (k p'))
    → Counts (put_result count fd p >>= k)
unfolding put_result real_size
put_result-Counts fd p k e h = elim (Bool-cases (ltb (length fd.text) (2 ^ 31))) [
  | inr long ↦ rw long tt
  | inl fits ↦ elim (Bool-cases (ltb (expanded fd) (2 ^ 31))) [
    | inr long ↦ rw (fits, long) tt
    | inl fits' ↦
        let width = if ltb (expanded fd) fd.conv.width then fd.conv.width else expanded fd in
        elim (Bool-cases (ltb (p.ret + width) (2 ^ 31))) [
          | inr over ↦ rw (fits, fits', over) tt
          | inl room ↦
              rw (fits, fits', room) (h _ (rw (put_field-count fd p.sink) (ap (λ n. n + width) e)))
        ]
  ]
]

conclude-Counts :
    (next : List ℕ → List Arg → Printed ℕ → Run (Printed ℕ))
    → ((fmt : List ℕ) (args : List Arg) (p : Printed ℕ) → p.ret ≡ p.sink → Counts (next fmt args p))
    → (p : Printed ℕ) (out : Outcome × List ℕ × List Arg) → p.ret ≡ p.sink
    → Counts (conclude count next p out)
unfolding conclude
conclude-Counts next h p (field fd, fmt, args) e =
    put_result-Counts fd p (next fmt args) e (h fmt args)
conclude-Counts next h p (store v, fmt, args) e = h fmt args _ e
conclude-Counts next h p (done, fmt, args) e = e

format_loop-Counts :
    (fuel : ℕ) (fmt : List ℕ) (args : List Arg) (p : Printed ℕ)
    → p.ret ≡ p.sink
    → Counts (format_loop count fuel fmt args p)
unfolding format_loop
format_loop-Counts zero fmt args p e = tt
format_loop-Counts (suc fuel) [] args p e = e
format_loop-Counts (suc fuel) (c ∷ fmt) args p e = elim (Bool-cases (c == 0)) [
  | inl z ↦ rw (z, format_loop) e
  | inr z ↦ elim (Bool-cases (c == 37)) [
    | inr z' ↦
        rw (z, z', format_loop)
          (int-Counts (p.ret + 1) _ (format_loop-Counts fuel fmt args _ (omega (arith, e))))
    | inl z' ↦
        rw (z, z', format_loop)
          (>>=-Counts
            (directive (suc (length fmt)) p.ret (next_char fmt).0 fresh (next_char fmt).1 args)
            (conclude count (format_loop count fuel) p)
            (λ out. conclude-Counts (format_loop count fuel) (format_loop-Counts fuel) p out e))
  ]
]

-- The characters as a sink, the last one first.
abbrev pub text_sink : ℕ → List ℕ → List ℕ
text_sink c text = c ∷ text

pub kprintf-length :
    (fmt : List ℕ) (args : List Arg) (p : Printed (List ℕ))
    → kprintf text_sink fmt args [] ≡ ok p
    → p.ret ≡ length p.sink
unfolding kprintf
kprintf-length fmt args p h =
    let start : Printed ℕ = record { sink = 0; ret = 0; stored = [] } in
    let e =
      format_loop-map text_sink count length (λ c s. refl) (suc (length fmt)) fmt args
        (record { sink = []; ret = 0; stored = [] }) in
    let e' : format_loop count (suc (length fmt)) fmt args start ≡ ok (map_printed length p) =
      e ∙ ap (map_run (map_printed length)) h in
    rw e' at (format_loop-Counts (suc (length fmt)) fmt args start refl)
