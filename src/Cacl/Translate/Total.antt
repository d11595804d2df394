-- ===== src/Cacl/Translate/Total.antt =====
-- The translation raises nothing, if the fields that it reads are there and can be read.
use sonic_host_services.Base.{some, List, String, ◌≡◌, Succeeds}
use sonic_host_services.Base.Dict.{lookup}
use sonic_host_services.Base.Text.{codes}
use sonic_host_services.Host.Image.{split}
use sonic_host_services.Cacl.{Table, no_data, fields, Props}
use sonic_host_services.Cacl.Rules.{port_range}

-- The port range of the rule, if it has one, can be read.
abbrev pub HasRange : Props → Type 0
HasRange props =
    (range : String)
    → lookup "L4_DST_PORT_RANGE" props ≡ some range
    → Succeeds (port_range (split 45 (codes range)))

-- A table without data, or with a type and, in the control plane, a list of services.
abbrev pub HasServices : Table → Type 0
HasServices no_data = Unit
HasServices (fields type services) = Succeeds type × (type ≡ some "CTRLPLANE" → Succeeds services)
