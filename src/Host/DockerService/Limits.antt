-- ===== src/Host/DockerService/Limits.antt =====
-- What the service asks of Docker: only what it is meant to allow.
use sonic_host_services.Base.{
  ℕ, Bool, true, false, not, ◌&&◌, Option, none, some, List, [], ◌∷◌, ◌++◌, String, if◌then◌else◌,
  ◌≡◌, refl, ap, ◌∙◌, arith,
}
use sonic_host_services.Base.Set.{contains}
use sonic_host_services.Base.Text.{Text, codes}
use sonic_host_services.Host.DockerService.{
  Docker, Kwargs, Call, Error, Message, stop_container, kill_container, restart_container,
  run_image, is_allowed_image, image_name, is_empty, is_text, allowed_containers, mounts_sensitive,
  run, run_validated, validate_docker_run_options, validate_volumes, validate_rest, on_container,
  get_sonic_container, stop, kill, restart, stopped, killed, restarted, is_one_of, allowed_images,
}

-- The keyword arguments that a container may be run with.
abbrev pub binds_allowed : Option (List Text) → Bool
binds_allowed none = false
binds_allowed (some binds) = not (mounts_sensitive binds)

abbrev pub kwargs_allowed : Kwargs → Bool
kwargs_allowed kwargs =
    not kwargs.privileged
    && binds_allowed kwargs.volumes
    && not (is_text (codes "root") kwargs.user)
    && not kwargs.cap_add
    && not kwargs.devices

abbrev pub is_none : Option Error → Bool
is_none none = true
is_none (some e) = false

validated :
    (v : Option (List Text)) (kwargs : Kwargs)
    → is_none (validate_rest (validate_volumes v) kwargs) ≡ (
        binds_allowed v
        && not (is_text (codes "root") kwargs.user)
        && not kwargs.cap_add
        && not kwargs.devices)
validated none kwargs = refl
validated (some binds) kwargs = ground arith

validate-allowed :
    (kwargs : Kwargs) → is_none (validate_docker_run_options kwargs) ≡ kwargs_allowed kwargs
unfolding validate_docker_run_options
validate-allowed kwargs = ground (arith, validated kwargs.volumes kwargs)

run_validated-calls :
    (docker : Docker) (image : Text) (kwargs : Kwargs) (o : Option Error)
    → (run_validated docker image kwargs o).0
      ≡ (if is_none o then run_image image kwargs ∷ [] else [])
run_validated-calls docker image kwargs none = refl
run_validated-calls docker image kwargs (some e) = refl

-- `run` asks Docker to run a container exactly if the daemon is reachable, the image is allowed,
-- the command is empty and the arguments are harmless: not privileged, no mount that begins with a
-- sensitive directory, not the user root, no capabilities and no devices.
pub run-calls :
    (docker : Docker) (image command : Text) (kwargs : Kwargs)
    → (run docker image command kwargs).0 ≡ (
        if docker.reachable && is_allowed_image image && is_empty command && kwargs_allowed kwargs
        then run_image image kwargs ∷ []
        else [])
unfolding run
run-calls docker image command kwargs = ground (
  arith,
  run_validated-calls docker image kwargs (validate_docker_run_options kwargs),
  validate-allowed kwargs,
)

on_container-calls :
    (docker : Docker) (call : Call) (done : Message) (o : Option Error)
    → (on_container docker call done o).0 ≡ (if is_none o then call ∷ [] else [])
on_container-calls docker call done none = refl
on_container-calls docker call done (some e) = refl

-- Whether a container may be managed, and is there to be.
abbrev pub is_managed : Docker → String → Bool
is_managed docker container_id =
    docker.reachable
    && contains container_id allowed_containers
    && is_none (docker.get container_id)

got-managed :
    (docker : Docker) (container_id : String)
    → is_none (get_sonic_container docker container_id) ≡ is_managed docker container_id
unfolding get_sonic_container
got-managed docker container_id = ground arith

-- `stop`, `kill` and `restart` make their one call exactly if the daemon is reachable, the container
-- is one of SONiC's and Docker knows it.
pub managed-calls :
    (docker : Docker) (container_id : String) (signal : ℕ)
    → ((stop docker container_id).0
        ≡ (if is_managed docker container_id then stop_container container_id ∷ [] else []))
      × ((kill docker container_id signal).0 ≡ (
          if is_managed docker container_id then kill_container container_id signal ∷ [] else []))
      × ((restart docker container_id).0
          ≡ (if is_managed docker container_id then restart_container container_id ∷ [] else []))
unfolding stop kill restart
managed-calls docker container_id signal =
    let got = get_sonic_container docker container_id in
    let managed = got-managed docker container_id in
    (
      on_container-calls docker (stop_container container_id) stopped got
          ∙ ap (λ b. if b then stop_container container_id ∷ [] else []) managed,
      on_container-calls docker (kill_container container_id signal) killed got
          ∙ ap (λ b. if b then kill_container container_id signal ∷ [] else []) managed,
      on_container-calls docker (restart_container container_id) restarted got
          ∙ ap (λ b. if b then restart_container container_id ∷ [] else []) managed,
    )

tag_dropped : (image tag : Text) → image_name (image ++ 58 ∷ tag) ≡ image_name image
unfolding image_name
tag_dropped [] tag = refl
tag_dropped (c ∷ image) tag = ground (arith, tag_dropped image tag)

-- Whatever follows a colon does not count: an image is allowed with any tag, and as well with
-- anything else after the colon, such as the port of a registry and a path on it.
pub is_allowed_image-tag :
    (image tag : Text) → is_allowed_image (image ++ 58 ∷ tag) ≡ is_allowed_image image
unfolding is_allowed_image
is_allowed_image-tag image tag = ap (is_one_of allowed_images) (tag_dropped image tag)
