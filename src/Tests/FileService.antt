-- ===== src/Tests/FileService.antt =====
-- host_modules/file_service.py at concrete inputs.
use sonic_host_services.Base.{◌≡◌, refl, true, false, some}
use sonic_host_services.Base.Text.{text_eq, codes}
use sonic_host_services.Host.FileService.{
  oct, octal, last_three, Place, Outcome, world_writable, not_writable, upper,
}
use sonic_host_services.Host.FileService.Guards.{is_supported}

abbrev fresh : Place
fresh = record { path = "/tmp/a"; path_exists = some false; directory = world_writable }

abbrev kept : Place
kept = record { path = "/etc/a"; path_exists = some true; directory = not_writable }

abbrev works : Outcome
works = record { connects = true; responds = true; completes = true }

https_supported : is_supported (upper (codes "https")) ≡ true
unfolding upper text_eq
https_supported = refl

-- A umask below 64 has the o of its prefix among its last three characters.
umask_022 : last_three (oct 18) ≡ codes "o22"
unfolding oct octal
umask_022 = refl

mode_644 : last_three (oct 33188) ≡ codes "644"
unfolding oct octal
mode_644 = refl
