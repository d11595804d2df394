-- ===== src/Tests/Docker.antt =====
-- host_modules/docker_service.py and host_modules/gnoi_reset.py at concrete inputs.
use sonic_host_services.Base.{◌≡◌, refl, true, false, none, some, [], ◌∷◌}
use sonic_host_services.Base.Text.{text_eq, codes}
use sonic_host_services.Host.DockerService.{Docker, Kwargs, is_allowed_image, image_name, is_one_of}
use sonic_host_services.Host.GnoiReset.{Raw}

abbrev docker : Docker
docker = record { reachable = true; get = λ c. none; perform = λ c. none }

abbrev harmless : Kwargs
harmless = record {
  privileged = false;
  volumes = some (codes "/tmp" ∷ []);
  user = none;
  cap_add = false;
  devices = false;
}

allowed_with_port : is_allowed_image (codes "docker-snmp:5000/other") ≡ true
unfolding is_allowed_image image_name is_one_of text_eq
allowed_with_port = refl

abbrev zero_fill : Raw
zero_fill = record {
  camel_factory_os = some true;
  factory_os = none;
  camel_zero_fill = none;
  zero_fill = some true;
  camel_retain_certs = none;
  retain_certs = none;
}
