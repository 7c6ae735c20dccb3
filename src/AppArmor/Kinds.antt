-- ===== src/AppArmor/Kinds.antt =====
-- The kinds of capabilities and networks of src/sandbox/apparmor.py.
use tacktcix.Prelude.{String}

pub data AppArmorCapability : Type 0 where
  chown dac_override dac_read_search fowner fsetid kill setgid setuid setpcap : AppArmorCapability
  linux_immutable net_bind_service net_broadcast net_admin net_raw ipc_lock ipc_owner :
      AppArmorCapability
  sys_module sys_rawio sys_chroot sys_ptrace sys_pacct sys_admin sys_boot sys_nice :
      AppArmorCapability
  sys_resource sys_time sys_tty_config mknod lease audit_write audit_control setfcap :
      AppArmorCapability
  mac_override mac_admin syslog wake_alarm block_suspend audit_read perfmon bpf : AppArmorCapability
  checkpoint_restore : AppArmorCapability

unfoldable pub capability_value : AppArmorCapability → String
capability_value chown = "chown"
capability_value dac_override = "dac_override"
capability_value dac_read_search = "dac_read_search"
capability_value fowner = "fowner"
capability_value fsetid = "fsetid"
capability_value kill = "kill"
capability_value setgid = "setgid"
capability_value setuid = "setuid"
capability_value setpcap = "setpcap"
capability_value linux_immutable = "linux_immutable"
capability_value net_bind_service = "net_bind_service"
capability_value net_broadcast = "net_broadcast"
capability_value net_admin = "net_admin"
capability_value net_raw = "net_raw"
capability_value ipc_lock = "ipc_lock"
capability_value ipc_owner = "ipc_owner"
capability_value sys_module = "sys_module"
capability_value sys_rawio = "sys_rawio"
capability_value sys_chroot = "sys_chroot"
capability_value sys_ptrace = "sys_ptrace"
capability_value sys_pacct = "sys_pacct"
capability_value sys_admin = "sys_admin"
capability_value sys_boot = "sys_boot"
capability_value sys_nice = "sys_nice"
capability_value sys_resource = "sys_resource"
capability_value sys_time = "sys_time"
capability_value sys_tty_config = "sys_tty_config"
capability_value mknod = "mknod"
capability_value lease = "lease"
capability_value audit_write = "audit_write"
capability_value audit_control = "audit_control"
capability_value setfcap = "setfcap"
capability_value mac_override = "mac_override"
capability_value mac_admin = "mac_admin"
capability_value syslog = "syslog"
capability_value wake_alarm = "wake_alarm"
capability_value block_suspend = "block_suspend"
capability_value audit_read = "audit_read"
capability_value perfmon = "perfmon"
capability_value bpf = "bpf"
capability_value checkpoint_restore = "checkpoint_restore"

pub data AppArmorNetwork : Type 0 where
  inet_tcp inet_udp inet6_tcp inet6_udp unix_stream unix_dgram netlink_raw packet_raw :
      AppArmorNetwork

unfoldable pub network_value : AppArmorNetwork → String
network_value inet_tcp = "inet tcp"
network_value inet_udp = "inet udp"
network_value inet6_tcp = "inet6 tcp"
network_value inet6_udp = "inet6 udp"
network_value unix_stream = "unix stream"
network_value unix_dgram = "unix dgram"
network_value netlink_raw = "netlink raw"
network_value packet_raw = "packet raw"
