-- ===== src/Launch/Names.antt =====
-- The name that a guest is shown with (`extract_guest_name`, kvm-vmm-x86/src/main.c), with strings
-- as the bytes before their NUL.
use mini_kvm.Base.{ℕ, zero, suc, ◌-◌, ◌≤◌, ◌≡◌, ◌==◌, ◌&&◌, refl, ap, ◌∙◌, arith}
use mini_kvm.Base.{Bool, true, false, if◌then◌else◌, Option, none, some, List, [], ◌∷◌, ◌++◌}
use mini_kvm.Base.{length, take, length-append}

-- `strrchr`, for a character that is no NUL: the string from the last one on.
abbrev pub or_here : ℕ → ℕ → List ℕ → Option (List ℕ) → Option (List ℕ)
or_here c x xs none = if x == c then some (x ∷ xs) else none
or_here c x xs (some later) = some later

unfoldable pub strrchr : List ℕ → (c : ℕ) → Option (List ℕ)
strrchr [] c = none
strrchr (x ∷ xs) c = or_here c x xs (strrchr xs c)

abbrev pub is_same : List ℕ → List ℕ → Bool
is_same [] [] = true
is_same [] (y ∷ ys) = false
is_same (x ∷ xs) [] = false
is_same (x ∷ xs) (y ∷ ys) = x == y && is_same xs ys

-- ".bin"
abbrev pub bin : List ℕ
bin = 46 ∷ 98 ∷ 105 ∷ 110 ∷ []

-- `name`: what is behind the slash.
abbrev pub behind_slash : (filename : List ℕ) → Option (List ℕ) → List ℕ
behind_slash filename none = filename
behind_slash filename (some []) = []
behind_slash filename (some (slash ∷ name)) = name

-- `*dot = '\0'`
abbrev pub without_bin : (name_buf : List ℕ) → (dot : Option (List ℕ)) → List ℕ
without_bin name_buf none = name_buf
without_bin name_buf (some dot) =
    if is_same dot bin then take (length name_buf - length dot) name_buf else name_buf

-- `name_buf` has room for 255 bytes and the NUL.
abbrev pub buffered : (name : List ℕ) → List ℕ
buffered name = without_bin (take 255 name) (strrchr (take 255 name) 46)

unfoldable pub extract_guest_name : (filename : List ℕ) → List ℕ
unfolding strrchr
extract_guest_name filename = buffered (behind_slash filename (strrchr filename 47))

abbrev pub Lacks : ℕ → List ℕ → Type 0
Lacks c [] = Unit
Lacks c (x ∷ xs) = ((x == c) ≡ false) × Lacks c xs

Lacks-append : (c : ℕ) (xs ys : List ℕ) → Lacks c xs → Lacks c ys → Lacks c (xs ++ ys)
Lacks-append c [] ys h k = k
Lacks-append c (x ∷ xs) ys (e, h) k = (e, Lacks-append c xs ys h k)

strrchr-none : (xs : List ℕ) (c : ℕ) → Lacks c xs → strrchr xs c ≡ none
unfolding strrchr
strrchr-none [] c h = refl
strrchr-none (x ∷ xs) c (e, h) =
    ap (or_here c x xs) (strrchr-none xs c h) ∙ ap (λ b. if b then some (x ∷ xs) else none) e

strrchr-last :
    (xs : List ℕ) (c : ℕ) (ys : List ℕ) → Lacks c ys → strrchr (xs ++ (c ∷ ys)) c ≡ some (c ∷ ys)
unfolding strrchr
strrchr-last [] c ys h = ap (or_here c c ys) (strrchr-none ys c h) ∙ ground arith
strrchr-last (x ∷ xs) c ys h = ap (or_here c x (xs ++ c ∷ ys)) (strrchr-last xs c ys h)

take-append : (n : ℕ) (xs ys : List ℕ) → n ≡ length xs → take n (xs ++ ys) ≡ xs
take-append zero [] ys h = refl
take-append zero (x ∷ xs) ys h = absurd (omega (arith, h))
take-append (suc n) [] ys h = absurd (omega (arith, h))
take-append (suc n) (x ∷ xs) ys h = ap (λ zs. x ∷ zs) (take-append n xs ys (omega (arith, h)))

take-all : (n : ℕ) (xs : List ℕ) → length xs ≤ n → take n xs ≡ xs
take-all zero [] h = refl
take-all zero (x ∷ xs) h = absurd (omega (arith, h))
take-all (suc n) [] h = refl
take-all (suc n) (x ∷ xs) h = ap (λ ys. x ∷ ys) (take-all n xs (omega (arith, h)))

-- The name of a file in any folder that ends in ".bin" is what stands before that, if it has no
-- slash and at most 251 bytes; it may have other dots.
pub extract_guest_name-bin :
    (folder name : List ℕ)
    → Lacks 47 name
    → length name ≤ 251
    → extract_guest_name (folder ++ (47 ∷ (name ++ bin))) ≡ name
unfolding extract_guest_name
extract_guest_name-bin folder name no_slash short =
    ap (λ s. buffered (behind_slash (folder ++ (47 ∷ (name ++ bin))) s))
      (strrchr-last folder 47 (name ++ bin)
        (Lacks-append 47 name bin no_slash (refl, (refl, (refl, (refl, tt))))))
    ∙ ap (λ s. without_bin s (strrchr s 46))
        (take-all 255 (name ++ bin) (omega (arith, length-append name bin)))
    ∙ ap (without_bin (name ++ bin))
        (strrchr-last name 46 (98 ∷ 105 ∷ 110 ∷ []) (refl, (refl, (refl, tt))))
    ∙ take-append (length (name ++ bin) - 4) name bin (omega (arith, length-append name bin))
