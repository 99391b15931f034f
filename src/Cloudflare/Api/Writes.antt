-- ===== src/Cloudflare/Api/Writes.antt =====
-- What the mapping of an origin writes to its zone.
use nextpanel.Prelude.{
  ℕ, ◌+◌, ◌≤◌, ◌≡◌, refl, ap, sym, ◌∙◌, arith, Bool, true, false, List, [], ◌∷◌, ◌++◌, count_where,
  All, All-append, All-map,
}
use mathlib.Core.List.{append_assoc}
use nextpanel.Prelude.Exec.{Result, ok, err, lift, reject, continue, ◌>>=◌}
use nextpanel.Cloudflare.Zone.{Call, CfError, Cloud, Api, request, is_write}

-- `m` sends its calls after those before: at most `n` that write, and each of them fits `P`.
pub Writes : {A : Type 0} → ℕ → (Call → Type 0) → Api A → Type 0
Writes n P m =
    (sent : List Call)
    → (new : List Call) × ((m sent).1 ≡ new ++ sent)
      × (count_where is_write new ≤ n)
      × All (λ c. is_write c ≡ true → P c) new

pub Writes-request :
    (P : Call → Type 0) (cloud : Cloud) (call : Call) (missing : Bool)
    → (is_write call ≡ true → P call)
    → Writes 1 P (request cloud call missing)
unfolding Writes request count_where
Writes-request P cloud call missing fits sent = (call ∷ [], refl, ground arith, (fits, tt))

pub Writes-read :
    (P : Call → Type 0) (cloud : Cloud) (call : Call) (missing : Bool)
    → is_write call ≡ false
    → Writes 0 P (request cloud call missing)
unfolding Writes request count_where
Writes-read P cloud call missing reads sent = (call ∷ [], refl, ground arith, ((λ writes. cc), tt))

-- A step that sends nothing.
pub Writes-lift : {A : Type 0} (P : Call → Type 0) (r : Result CfError A) → Writes 0 P (lift r)
unfolding Writes count_where
Writes-lift P r sent = ([], refl, omega arith, tt)

pub Writes-reject : (P : Call → Type 0) (bad : Bool) (e : CfError) → Writes 0 P (reject bad e)
unfolding Writes count_where
Writes-reject P true e sent = ([], refl, omega arith, tt)
Writes-reject P false e sent = ([], refl, omega arith, tt)

pub Writes-le :
    {A : Type 0} (n k : ℕ) (P : Call → Type 0) (m : Api A) → n ≤ k → Writes n P m → Writes k P m
unfolding Writes
Writes-le n k P m h w sent = let (new, same, count, fit) = w sent in (new, same, omega arith, fit)

pub Writes-weaken :
    {A : Type 0} (n : ℕ) (P Q : Call → Type 0) (m : Api A)
    → ((c : Call) → P c → Q c)
    → Writes n P m
    → Writes n Q m
unfolding Writes
Writes-weaken n P Q m h w sent =
    let (new, same, count, fit) = w sent in
    (
      new,
      same,
      count,
      All-map (λ c. is_write c ≡ true → P c) (λ c. is_write c ≡ true → Q c) (λ c k e. h c (k e)) new
          fit,
    )

count_where-append :
    (xs ys : List Call)
    → count_where is_write (xs ++ ys) ≡ count_where is_write xs + count_where is_write ys
unfolding count_where
count_where-append [] ys = omega arith
count_where-append (x ∷ xs) ys = omega (arith, count_where-append xs ys)

Writes-continue :
    {A B : Type 0} (n k : ℕ) (P : Call → Type 0) (r : Result CfError A) (f : A → Api B)
    (sent new : List Call)
    → count_where is_write new ≤ n
    → All (λ c. is_write c ≡ true → P c) new
    → ((a : A) → r ≡ ok a → Writes k P (f a))
    → (all_new : List Call) × ((continue r f (new ++ sent)).1 ≡ all_new ++ sent)
      × (count_where is_write all_new ≤ n + k)
      × All (λ c. is_write c ≡ true → P c) all_new
unfolding Writes
Writes-continue n k P (err e) f sent new count fit w = (new, refl, omega arith, fit)
Writes-continue n k P (ok a) f sent new count fit w =
    let (more, same, count_more, fit_more) = w a refl (new ++ sent) in
    (
      more ++ new,
      same ∙ sym (append_assoc more new sent),
      omega (arith, count_where-append more new),
      All-append (λ c. is_write c ≡ true → P c) more new fit_more fit,
    )

-- The next step knows what the first one returned, and after which calls.
pub Writes-bind_known :
    {A B : Type 0} (n k : ℕ) (P : Call → Type 0) (m : Api A) (f : A → Api B)
    → Writes n P m
    → ((sent : List Call) (a : A) → (m sent).0 ≡ ok a → Writes k P (f a))
    → Writes (n + k) P (m >>= f)
unfolding Writes
Writes-bind_known n k P m f wm wf sent =
    let (new, same, count, fit) = wm sent in
    let (all_new, end, count_all, fit_all) =
      Writes-continue n k P (m sent).0 f sent new count fit (wf sent) in
    (all_new, ap (λ s. (continue (m sent).0 f s).1) same ∙ end, count_all, fit_all)

pub Writes-bind :
    {A B : Type 0} (n k : ℕ) (P : Call → Type 0) (m : Api A) (f : A → Api B)
    → Writes n P m
    → ((a : A) → Writes k P (f a))
    → Writes (n + k) P (m >>= f)
Writes-bind n k P m f wm wf = Writes-bind_known n k P m f wm (λ sent a e. wf a)
