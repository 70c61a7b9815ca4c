-- ===== src/Util/Device/Name/Laws.antt =====
-- util/util.go: the name of the device whose uuid file stands in a directory of sysfs.
use nvmeof_csi.Base.{String, ◌<>◌, ◌≡◌, nat_eq}
use nvmeof_csi.Util.Device.Name.{device_name}
use nvmeof_csi.Util.Device.Name.Matching.{IsNumber, LacksN, uuid_path, find_name-uuid_path}
use nvmeof_csi.Util.Device.Name.Counters.{drop_counters_name}

-- For a PCI directory without the letter `n`, and the numbers of a controller, a path and a
-- namespace, the name that is found in the path of the uuid file is that of the block device: the
-- controller's and the namespace's number, without the path's.
pub device_name-uuid_path :
    (dir x a b d : String)
    → LacksN dir
    → IsNumber x
    → IsNumber a
    → IsNumber b
    → IsNumber d
    → device_name (uuid_path dir x a b d) ≡ "nvme" <> (a <> ("n" <> d))
unfolding device_name
device_name-uuid_path dir x a b d h hx ha hb hd =
    rw (find_name-uuid_path dir x a b d h hx ha hb hd) (drop_counters_name a b d ha hb hd)
