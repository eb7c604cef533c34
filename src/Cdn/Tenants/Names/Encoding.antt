-- ===== src/Cdn/Tenants/Names/Encoding.antt =====
-- The bytes behind a caller reference of src/repositories/cloudfront_saas_cdn.rs can be told apart.
use mathlib.Core.List.{append_assoc}
use rendermesh.Base.{
  ◌≡◌, refl, sym, ◌∙◌, ℕ, zero, suc, ◌*◌, ◌/◌, ◌%◌, ◌<◌, List, [], ◌∷◌, ◌++◌, arith, Text, All,
  utf8, utf8_code, length, length-append,
}
use rendermesh.Cdn.Tenants.Names.{to_be_bytes, hash_component, hash_components, reference_bytes}

-- Lists of the same length in front of something can be told apart.
append_inj :
    (xs ys us vs : List ℕ) → length xs ≡ length us → xs ++ ys ≡ us ++ vs → (xs ≡ us) × (ys ≡ vs)
append_inj [] ys [] vs n h = (refl, h)
append_inj [] ys (u ∷ us) vs n h = absurd (omega arith)
append_inj (x ∷ xs) ys [] vs n h = absurd (omega arith)
append_inj (x ∷ xs) ys (u ∷ us) vs n h =
    let (p, q) = append_inj xs ys us vs (omega arith) (cc) in (cc, q)

length-to_be_bytes : (width n : ℕ) → length (to_be_bytes width n) ≡ width
unfolding to_be_bytes
length-to_be_bytes zero n = refl
length-to_be_bytes (suc width) n = omega (
  arith,
  length-to_be_bytes width (n / 256),
  length-append (to_be_bytes width (n / 256)) (n % 256 ∷ []),
)

-- How many numbers this many bytes stand for.
abbrev span : ℕ → ℕ
span zero = 1
span (suc width) = 256 * span width

to_be_bytes_inj :
    (width n m : ℕ)
    → n < span width
    → m < span width
    → to_be_bytes width n ≡ to_be_bytes width m
    → n ≡ m
unfolding to_be_bytes
to_be_bytes_inj zero n m hn hm h = omega arith
to_be_bytes_inj (suc width) n m hn hm h =
    let (p, q) =
      append_inj (to_be_bytes width (n / 256)) (n % 256 ∷ []) (to_be_bytes width (m / 256))
        (m % 256 ∷ [])
        (length-to_be_bytes width (n / 256) ∙ sym (length-to_be_bytes width (m / 256))) h in
    let same : n / 256 ≡ m / 256 =
      to_be_bytes_inj width (n / 256) (m / 256) (omega arith) (omega arith) p in
    let last : n % 256 ≡ m % 256 = ground arith in omega arith

abbrev pub IsWord : ℕ → Type 0
IsWord n = n < 18_446_744_073_709_551_616

word_inj :
    (n m : ℕ) (xs ys : List ℕ)
    → IsWord n
    → IsWord m
    → to_be_bytes 8 n ++ xs ≡ to_be_bytes 8 m ++ ys
    → (n ≡ m) × (xs ≡ ys)
word_inj n m xs ys hn hm h =
    let (p, q) =
      append_inj (to_be_bytes 8 n) xs (to_be_bytes 8 m) ys
        (length-to_be_bytes 8 n ∙ sym (length-to_be_bytes 8 m)) h in
    (to_be_bytes_inj 8 n m hn hm p, q)

hash_component_inj :
    (a b xs ys : List ℕ)
    → IsWord (length a)
    → IsWord (length b)
    → hash_component a ++ xs ≡ hash_component b ++ ys
    → (a ≡ b) × (xs ≡ ys)
unfolding hash_component
hash_component_inj a b xs ys ha hb h =
    let (n, rest) = word_inj (length a) (length b) (a ++ xs) (b ++ ys) ha hb (
      sym (append_assoc (to_be_bytes 8 (length a)) a xs)
      ∙ h
      ∙ append_assoc (to_be_bytes 8 (length b)) b ys) in
    append_inj a xs b ys n rest

utf8_code_inj :
    (c d : ℕ) (xs ys : List ℕ) → utf8_code c ++ xs ≡ utf8_code d ++ ys → (c ≡ d) × (xs ≡ ys)
utf8_code_inj c d xs ys h = ground arith

pub utf8_inj : (s t : Text) → utf8 s ≡ utf8 t → s ≡ t
unfolding utf8
utf8_inj [] [] h = refl
utf8_inj [] (d ∷ t) h = ground arith
utf8_inj (c ∷ s) [] h = ground arith
utf8_inj (c ∷ s) (d ∷ t) h =
    let (p, q) = utf8_code_inj c d (utf8 s) (utf8 t) h in let rest = utf8_inj s t q in cc

-- As long as a text of the program can be.
abbrev pub Fits : Text → Type 0
Fits s = IsWord (length (utf8 s))

hash_text_inj :
    (s t : Text) (xs ys : List ℕ)
    → Fits s
    → Fits t
    → hash_component (utf8 s) ++ xs ≡ hash_component (utf8 t) ++ ys
    → (s ≡ t) × (xs ≡ ys)
hash_text_inj s t xs ys hs ht h =
    let (p, q) = hash_component_inj (utf8 s) (utf8 t) xs ys hs ht h in (utf8_inj s t p, q)

hash_components_inj :
    (ps qs : List Text)
    → length ps ≡ length qs
    → All Fits ps
    → All Fits qs
    → hash_components ps ≡ hash_components qs
    → ps ≡ qs
unfolding hash_components
hash_components_inj [] [] n fp fq h = refl
hash_components_inj [] (q ∷ qs) n fp fq h = absurd (omega arith)
hash_components_inj (p ∷ ps) [] n fp fq h = absurd (omega arith)
hash_components_inj (p ∷ ps) (q ∷ qs) n (fp, fps) (fq, fqs) h =
    let (same, rest) = hash_text_inj p q (hash_components ps) (hash_components qs) fp fq h in
    let tails = hash_components_inj ps qs (omega arith) fps fqs rest in cc

-- What goes into a caller reference.
pub record Reference : Type 0 where
  pub namespace : List ℕ
  pub origin_id : Text
  pub generation : ℕ
  pub tenant_id : Text
  pub paths : List Text

abbrev pub bytes_of : Reference → List ℕ
bytes_of r = reference_bytes r.namespace r.origin_id r.generation r.tenant_id r.paths

-- All lengths and the generation fit 64 bits.
pub record IsFitting (r : Reference) : Type 0 where
  pub namespace_fits : IsWord (length r.namespace)
  pub origin_fits : Fits r.origin_id
  pub generation_fits : IsWord r.generation
  pub tenant_fits : Fits r.tenant_id
  pub count_fits : IsWord (length r.paths)
  pub paths_fit : All Fits r.paths

-- The bytes that are hashed for a caller reference are those of one invalidation only: if they are
-- the same, then the namespaces, the origins, the generations, the tenants and the paths are, as long
-- as all lengths and the generations fit 64 bits.
pub reference_bytes_inj :
    (r q : Reference)
    → IsFitting r
    → IsFitting q
    → bytes_of r ≡ bytes_of q
    → (r.namespace ≡ q.namespace)
      × (r.origin_id ≡ q.origin_id)
      × (r.generation ≡ q.generation)
      × (r.tenant_id ≡ q.tenant_id)
      × (r.paths ≡ q.paths)
unfolding reference_bytes
reference_bytes_inj r q f g h =
    let (n, h1) =
      hash_component_inj r.namespace q.namespace _ _ f.namespace_fits g.namespace_fits h in
    let (o, h2) = hash_text_inj r.origin_id q.origin_id _ _ f.origin_fits g.origin_fits h1 in
    let (v, h3) = word_inj r.generation q.generation _ _ f.generation_fits g.generation_fits h2 in
    let (t, h4) = hash_text_inj r.tenant_id q.tenant_id _ _ f.tenant_fits g.tenant_fits h3 in
    let (k, h5) = word_inj (length r.paths) (length q.paths) _ _ f.count_fits g.count_fits h4 in
    (n, o, v, t, hash_components_inj r.paths q.paths k f.paths_fit g.paths_fit h5)
