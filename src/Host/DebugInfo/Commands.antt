-- ===== src/Host/DebugInfo/Commands.antt =====
-- The paths and the commands of debug_info.py.
use sonic_host_services.Base.{List, [], ◌∷◌, ◌++◌, length, drop, if◌then◌else◌}
use sonic_host_services.Base.Text.{Text, codes, startswith}

abbrev pub artifact_dir : Text
artifact_dir = codes "/tmp/dump"

-- os.path.join
abbrev pub join : Text → Text → Text
join dir name = dir ++ codes "/" ++ name

abbrev pub counter_cmds : Text → List Text
counter_cmds dir =
    (codes "top -b -n 1 -w 500 > " ++ join dir (codes "top.txt"))
    ∷ (codes "docker exec -i database redis-dump -H 127.0.0.1 -p 6379 -d 2 -y > "
        ++ join dir (codes "counter_db.json"))
    ∷ []

abbrev pub common_cmds : Text → List Text
common_cmds dir =
    (codes "show version > " ++ join dir (codes "version.txt"))
    ∷ (codes "ip -6 route > " ++ join dir (codes "routing.txt"))
    ∷ (codes "ip neigh >> " ++ join dir (codes "routing.txt"))
    ∷ (codes "ip route >> " ++ join dir (codes "routing.txt"))
    ∷ (codes "netstat -tplnaW | grep telemetry >> " ++ join dir (codes "routing.txt"))
    ∷ (codes "ip link >> " ++ join dir (codes "routing.txt"))
    ∷ []

abbrev pub db_cmds : Text → List Text
db_cmds dir =
    (codes "docker exec -i database redis-dump -H 127.0.0.1 -p 6379 -d 0 -y > "
      ++ join dir (codes "appl_db.json"))
    ∷ (codes "docker exec -i database redis-dump -H 127.0.0.1 -p 6379 -d 1 -y > "
        ++ join dir (codes "asic_db.json"))
    ∷ (codes "docker exec -i database redis-dump -H 127.0.0.1 -p 6379 -d 4 -y > "
        ++ join dir (codes "config_db.json"))
    ∷ (codes "docker exec -i database redis-cli -n 1 hgetall VIDTORID > "
        ++ join dir (codes "vidtorid.txt"))
    ∷ []

abbrev pub tar_cmd : Text → Text
tar_cmd dir_name =
    codes "tar -C /tmp/dump -zcvf "
    ++ join artifact_dir (dir_name ++ codes ".tar.gz")
    ++ codes " "
    ++ dir_name

-- `s.removeprefix(prefix)`
abbrev pub removeprefix : Text → Text → Text
removeprefix s prefix = if startswith s prefix then drop (length prefix) s else s
