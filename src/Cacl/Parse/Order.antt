-- ===== src/Cacl/Parse/Order.antt =====
-- sorted_desc: what the order of the translated priorities is.
use sonic_host_services.Base.{true, false, List, [], ◌∷◌, String, ◌≡◌, refl, arith, All, by_test}
use mathlib.Core.List.{Perm}
use mathlib.Core.List.Perm
use sonic_host_services.Base.Text.{Text, codes}
use sonic_host_services.Cacl.Parse.{text_lt, insert_desc, sorted_desc}

text_lt_asym : (s t : Text) → text_lt s t ≡ true → text_lt t s ≡ false
unfolding text_lt
text_lt_asym s [] h = cc
text_lt_asym [] (d ∷ t) h = refl
text_lt_asym (c ∷ s) (d ∷ t) h = ground (arith, text_lt_asym s t)

text_lt_negative_trans :
    (r s t : Text) → text_lt r s ≡ false → text_lt s t ≡ false → text_lt r t ≡ false
unfolding text_lt
text_lt_negative_trans r s [] g h = refl
text_lt_negative_trans r [] (d ∷ t) g h = cc
text_lt_negative_trans [] (b ∷ s) (d ∷ t) g h = cc
text_lt_negative_trans (c ∷ r) (b ∷ s) (d ∷ t) g h = ground (arith, text_lt_negative_trans r s t)

-- No later priority is greater, as texts are compared.
abbrev pub Descending : List String → Type 0
Descending [] = Unit
Descending (p ∷ ps) = All (λ q. text_lt (codes p) (codes q) ≡ false) ps × Descending ps

insert_desc-All :
    (P : String → Type 0) (p : String) (ps : List String)
    → P p
    → All P ps
    → All P (insert_desc p ps)
unfolding insert_desc
insert_desc-All P p [] h k = (h, tt)
insert_desc-All P p (q ∷ qs) h k =
    by_test (All P) (text_lt (codes p) (codes q)) (q ∷ insert_desc p qs) (p ∷ q ∷ qs)
      (λ e. (k.0, insert_desc-All P p qs h k.1)) (λ e. (h, k))

after-All :
    (p q : String) (qs : List String)
    → text_lt (codes p) (codes q) ≡ false
    → All (λ r. text_lt (codes q) (codes r) ≡ false) qs
    → All (λ r. text_lt (codes p) (codes r) ≡ false) qs
after-All p q [] e h = tt
after-All p q (r ∷ qs) e h =
    (text_lt_negative_trans (codes p) (codes q) (codes r) e h.0, after-All p q qs e h.1)

insert_desc-Descending :
    (p : String) (ps : List String) → Descending ps → Descending (insert_desc p ps)
unfolding insert_desc
insert_desc-Descending p [] h = (tt, tt)
insert_desc-Descending p (q ∷ qs) h =
    by_test Descending (text_lt (codes p) (codes q)) (q ∷ insert_desc p qs) (p ∷ q ∷ qs)
      (λ e. (
        insert_desc-All (λ r. text_lt (codes q) (codes r) ≡ false) p qs
            (text_lt_asym (codes p) (codes q) e) h.0,
        insert_desc-Descending p qs h.1,
      ))
      (λ e. ((e, after-All p q qs e h.0), h))

pub sorted_desc-Descending : (ps : List String) → Descending (sorted_desc ps)
unfolding sorted_desc
sorted_desc-Descending [] = tt
sorted_desc-Descending (p ∷ ps) =
    insert_desc-Descending p (sorted_desc ps) (sorted_desc-Descending ps)

-- Every priority once for each time that it is there.
insert_desc-Perm : (p : String) (ps : List String) → Perm (insert_desc p ps) (p ∷ ps)
unfolding insert_desc
insert_desc-Perm p [] = Perm.refl (p ∷ [])
insert_desc-Perm p (q ∷ qs) =
    by_test (λ l. Perm l (p ∷ q ∷ qs)) (text_lt (codes p) (codes q)) (q ∷ insert_desc p qs)
      (p ∷ q ∷ qs) (λ e. Perm.trans (Perm.cons q (insert_desc-Perm p qs)) (Perm.swap p q qs))
      (λ e. Perm.refl (p ∷ q ∷ qs))

pub sorted_desc-Perm : (ps : List String) → Perm (sorted_desc ps) ps
unfolding sorted_desc
sorted_desc-Perm [] = Perm.refl []
sorted_desc-Perm (p ∷ ps) =
    Perm.trans (insert_desc-Perm p (sorted_desc ps)) (Perm.cons p (sorted_desc-Perm ps))
