-- ===== src/Host/Image/Listing.antt =====
-- The listing of images is read back as it is printed.
use sonic_host_services.Base.{
  ℕ, Bool, true, false, ◌||◌, List, [], ◌∷◌, ◌++◌, ◌≡◌, refl, ◌∙◌, ap, sym, arith, ◌==◌, All,
  append-nil, append_assoc,
}
use sonic_host_services.Base.Text.{Text, codes, startswith, occurs, lstrip}
use sonic_host_services.Host.Image.{
  Images, no_images, split, lower, strip, second_or, parse_line, parse_lines,
  parse_sonic_installer_list,
}

-- Whether a text has a character.
unfoldable pub has : ℕ → Text → Bool
has a [] = false
has a (c ∷ text) = c == a || has a text

-- A name of an image: one line without a colon, and no space around it.
pub record IsName (name : Text) : Type 0 where
  pub no_colon : has 58 name ≡ false
  pub one_line : has 10 name ≡ false
  pub stripped : strip name ≡ name

-- The lines after the first one, each with the line end before it.
unfoldable pub lines_after : List Text → Text
lines_after [] = []
lines_after (line ∷ lines) = 10 ∷ line ++ lines_after lines

-- The listing as sonic-installer prints it.
abbrev pub listing : Images → Text
listing images =
    codes "Current: "
    ++ (images.current
        ++ (10 ∷ codes "Next: "
            ++ (images.next_ ++ (10 ∷ codes "Available: " ++ lines_after images.available))))

split-line :
    (sep : ℕ) (line rest : Text)
    → has sep line ≡ false
    → split sep (line ++ sep ∷ rest) ≡ line ∷ split sep rest
unfolding split has
split-line sep [] rest h = ground arith
split-line sep (c ∷ line) rest h = ground (arith, split-line sep line rest)

split-last : (sep : ℕ) (line : Text) → has sep line ≡ false → split sep line ≡ line ∷ []
unfolding split has
split-last sep [] h = refl
split-last sep (c ∷ line) h = ground (arith, split-last sep line)

pub has-append : (a : ℕ) (s t : Text) → has a (s ++ t) ≡ (has a s || has a t)
unfolding has
has-append a [] t = refl
has-append a (c ∷ s) t = ground (arith, has-append a s t)

has-lower : (t : Text) → has 58 (lower t) ≡ has 58 t
unfolding has lower
has-lower [] = refl
has-lower (c ∷ t) = ground (arith, has-lower t)

startswith-colon :
    (part text : Text) → has 58 part ≡ true → has 58 text ≡ false → startswith text part ≡ false
unfolding startswith has
startswith-colon [] text p t = cc
startswith-colon (c ∷ part) [] p t = refl
startswith-colon (c ∷ part) (d ∷ text) p t = ground (arith, startswith-colon part text)

occurs-colon :
    (part text : Text) → has 58 part ≡ true → has 58 text ≡ false → occurs part text ≡ false
unfolding occurs has
occurs-colon part [] p t = startswith-colon part [] p t
occurs-colon part (c ∷ text) p t =
    ground (arith, startswith-colon part (c ∷ text), occurs-colon part text)

-- The name after the colon of a line.
second_or-name :
    (label name default : Text)
    → has 58 label ≡ false
    → IsName name
    → second_or default (split 58 (label ++ 58 ∷ 32 ∷ name)) ≡ name
unfolding lstrip has
second_or-name label name default h n =
    ap (second_or default) (
      split-line 58 label (32 ∷ name) h
      ∙ ap (λ p. label ∷ p) (split-last 58 (32 ∷ name) n.no_colon))
    ∙ n.stripped

parse_line-current :
    (name : Text) (images : Images)
    → IsName name
    → parse_line (codes "Current: " ++ name) images ≡ record images { current = name }
unfolding parse_line lower occurs startswith has
parse_line-current name images n =
    ap (λ t. record images { current = t })
      (second_or-name (codes "Current") name images.current refl n)

no_mark : (part name : Text) → has 58 part ≡ true → IsName name → occurs part (lower name) ≡ false
no_mark part name p n = occurs-colon part (lower name) p (has-lower name ∙ n.no_colon)

not_current :
    (name : Text) → IsName name → occurs (codes "current:") (lower (codes "Next: " ++ name)) ≡ false
unfolding lower occurs startswith has
not_current name n = no_mark (codes "current:") name refl n

is_next : (name : Text) → occurs (codes "next:") (lower (codes "Next: " ++ name)) ≡ true
unfolding lower occurs startswith
is_next name = refl

parse_line-next :
    (name : Text) (images : Images)
    → IsName name
    → parse_line (codes "Next: " ++ name) images ≡ record images { next_ = name }
unfolding parse_line has
parse_line-next name images n = ground (
  arith,
  not_current name n,
  is_next name,
  second_or-name (codes "Next") name images.next_ refl n,
)

parse_line-available :
    (name : Text) (images : Images)
    → IsName name
    → parse_line name images ≡ record images { available = images.available ++ name ∷ [] }
unfolding parse_line has
parse_line-available name images n = ground (
  arith,
  no_mark (codes "current:") name refl n,
  no_mark (codes "next:") name refl n,
  no_mark (codes "available:") name refl n,
  n.stripped,
)

parse_lines-available :
    (names : List Text) (images : Images)
    → All IsName names
    → parse_lines names images ≡ record images { available = images.available ++ names }
unfolding parse_lines
parse_lines-available [] images h =
    ap (λ l. record images { available = l }) (sym (append-nil images.available))
parse_lines-available (name ∷ names) images (n, h) =
    ap (parse_lines names) (parse_line-available name images n)
    ∙ parse_lines-available names (record images { available = images.available ++ name ∷ [] }) h
    ∙ ap (λ l. record images { available = l }) (append_assoc images.available (name ∷ []) names)

split-lines_after :
    (line : Text) (names : List Text)
    → has 10 line ≡ false
    → All IsName names
    → split 10 (line ++ lines_after names) ≡ line ∷ names
unfolding lines_after
split-lines_after line [] h ns = ap (split 10) (append-nil line) ∙ split-last 10 line h
split-lines_after line (name ∷ names) h (n, ns) =
    split-line 10 line (name ++ lines_after names) h
    ∙ ap (λ p. line ∷ p) (split-lines_after name names n.one_line ns)

split-listing :
    (images : Images)
    → IsName images.current
    → IsName images.next_
    → All IsName images.available
    → split 10 (listing images)
      ≡ (codes "Current: " ++ images.current)
        ∷ (codes "Next: " ++ images.next_)
        ∷ codes "Available: "
        ∷ images.available
unfolding has
split-listing images c n names =
    let last_ = codes "Available: " ++ lines_after images.available in
    split-line 10 (codes "Current: " ++ images.current)
      (codes "Next: " ++ (images.next_ ++ (10 ∷ last_))) c.one_line
    ∙ ap (λ p. (codes "Current: " ++ images.current) ∷ p)
        (split-line 10 (codes "Next: " ++ images.next_) last_ n.one_line
          ∙ ap (λ p. (codes "Next: " ++ images.next_) ∷ p)
              (split-lines_after (codes "Available: ") images.available refl names))

parse_line-header : (images : Images) → parse_line (codes "Available: ") images ≡ images
unfolding parse_line lower occurs startswith
parse_line-header images = refl

-- A listing of images whose names are single lines, without colons and without space around them, is
-- read back as the images.
pub parse_sonic_installer_list-listing :
    (images : Images)
    → IsName images.current
    → IsName images.next_
    → All IsName images.available
    → parse_sonic_installer_list (listing images) ≡ images
unfolding parse_sonic_installer_list parse_lines
parse_sonic_installer_list-listing images c n names =
    let i1 : Images = record no_images { current = images.current } in
    let i2 : Images = record i1 { next_ = images.next_ } in
    let header = codes "Available: " in
    let next_line = codes "Next: " ++ images.next_ in
    ap (λ lines. parse_lines lines no_images) (split-listing images c n names)
    ∙ ap (parse_lines (next_line ∷ header ∷ images.available))
        (parse_line-current images.current no_images c)
    ∙ ap (parse_lines (header ∷ images.available)) (parse_line-next images.next_ i1 n)
    ∙ ap (parse_lines images.available) (parse_line-header i2)
    ∙ parse_lines-available images.available i2 names
