-- ===== src/Tests/Image.antt =====
-- host_modules/image_service.py at concrete inputs.
use sonic_host_services.Base.{◌≡◌, refl, true, some, [], ◌∷◌, ◌++◌, append-nil, append_assoc}
use sonic_host_services.Base.Text.{Text, codes, lstrip, rstrip}
use sonic_host_services.Host.Image.{Images, Hash, digest, parse_sonic_installer_list, checksum}
use sonic_host_services.Host.Image.Listing.{
  has, IsName, listing, parse_sonic_installer_list-listing,
}
use sonic_host_services.Host.Image.Checksum.{checksum-whole}

abbrev images : Images
images = record {
  current = codes "SONiC-1";
  next_ = codes "SONiC-2";
  available = codes "SONiC-1" ∷ codes "SONiC-2" ∷ [];
}

first-IsName : IsName (codes "SONiC-1")
unfolding has lstrip rstrip
first-IsName = record { no_colon = refl; one_line = refl; stripped = refl }

second-IsName : IsName (codes "SONiC-2")
unfolding has lstrip rstrip
second-IsName = record { no_colon = refl; one_line = refl; stripped = refl }

parse_sonic_installer_list-listing_example : parse_sonic_installer_list (listing images) ≡ images
parse_sonic_installer_list-listing_example =
    parse_sonic_installer_list-listing images first-IsName second-IsName
      (first-IsName, (second-IsName, tt))

-- A hash that keeps all that it is fed with.
abbrev whole : Hash
whole = record { State = Text; start = []; update = λ s t. s ++ t; hexdigest = λ s. s }

checksum-whole_example : checksum (some (1 ∷ 2 ∷ [])) (some whole) true ≡ (0, digest (1 ∷ 2 ∷ []))
checksum-whole_example =
    checksum-whole whole (λ s. append-nil s) (λ s a b. append_assoc s a b) (1 ∷ 2 ∷ [])
