-- ===== src/AppArmor/Tables.antt =====
-- The tables of src/sandbox/apparmor.py: what each type of agent may use.
use tacktcix.Prelude.{String, List, [], ◌∷◌}
use tacktcix.Prelude.Dict.{Dict}
use tacktcix.AppArmor.Kinds.{
  AppArmorCapability, AppArmorNetwork, chown, dac_override, fowner, fsetid, inet6_tcp, inet6_udp,
  inet_tcp, inet_udp, kill, net_admin, net_raw, netlink_raw, packet_raw, setgid, setpcap, setuid,
  sys_admin, sys_chroot, sys_ptrace, unix_dgram, unix_stream,
}

coder_linux_capabilities : List AppArmorCapability
coder_linux_capabilities =
    dac_override ∷ fowner ∷ fsetid ∷ setuid ∷ setgid ∷ chown ∷ kill ∷ setpcap ∷ []

devops_linux_capabilities : List AppArmorCapability
devops_linux_capabilities =
    dac_override ∷ fowner ∷ fsetid ∷ setuid ∷ setgid ∷ chown ∷ kill ∷ setpcap ∷ net_admin ∷ net_raw
    ∷ sys_admin ∷ sys_ptrace ∷ sys_chroot ∷ []

qa_linux_capabilities : List AppArmorCapability
qa_linux_capabilities = dac_override ∷ kill ∷ []

securityengineer_linux_capabilities : List AppArmorCapability
securityengineer_linux_capabilities =
    dac_override ∷ fowner ∷ fsetid ∷ setuid ∷ setgid ∷ chown ∷ kill ∷ net_raw ∷ sys_ptrace
    ∷ sys_admin ∷ []

explore_linux_capabilities : List AppArmorCapability
explore_linux_capabilities = dac_override ∷ kill ∷ []

unfoldable pub agent_linux_capabilities : Dict String (List AppArmorCapability)
unfolding coder_linux_capabilities devops_linux_capabilities qa_linux_capabilities
    securityengineer_linux_capabilities explore_linux_capabilities
agent_linux_capabilities =
    ("coder", coder_linux_capabilities)
    ∷ ("devops", devops_linux_capabilities)
    ∷ ("qa", qa_linux_capabilities)
    ∷ ("securityengineer", securityengineer_linux_capabilities)
    ∷ ("explore", explore_linux_capabilities)
    ∷ []

coder_filesystem_rules : List String
coder_filesystem_rules =
    "/workspace/** rwmlk" ∷ "/tmp/** rwmlk" ∷ "/run/** rwmlk" ∷ "/home/executor/** rwmlk"
    ∷ "/usr/bin/git mrix" ∷ "/usr/bin/python* mrix" ∷ "/usr/bin/node mrix" ∷ "/usr/bin/npm mrix"
    ∷ "/usr/bin/npx mrix" ∷ "/usr/bin/pip* mrix" ∷ "/usr/bin/poetry mrix" ∷ "/usr/bin/cargo mrix"
    ∷ "/usr/bin/go mrix" ∷ "/usr/bin/curl mrix" ∷ "/usr/bin/wget mrix" ∷ "/usr/bin/gh mrix"
    ∷ "/usr/bin/make mrix" ∷ "/usr/bin/gcc mrix" ∷ "/usr/bin/g++ mrix" ∷ []

devops_filesystem_rules : List String
devops_filesystem_rules =
    "/workspace/** rwmlk" ∷ "/tmp/** rwmlk" ∷ "/run/** rwmlk" ∷ "/home/executor/** rwmlk"
    ∷ "/usr/bin/git mrix" ∷ "/usr/bin/python* mrix" ∷ "/usr/bin/node mrix" ∷ "/usr/bin/npm mrix"
    ∷ "/usr/bin/curl mrix" ∷ "/usr/bin/wget mrix" ∷ "/usr/bin/gh mrix" ∷ "/usr/bin/docker mrix"
    ∷ "/usr/bin/kubectl mrix" ∷ "/usr/bin/make mrix" ∷ "/var/run/docker.sock rw"
    ∷ "/root/.docker/config.json r" ∷ []

qa_filesystem_rules : List String
qa_filesystem_rules =
    "/workspace/** r" ∷ "/tmp/** r" ∷ "/run/** r" ∷ "/home/executor/** r" ∷ "/usr/bin/python* mrix"
    ∷ "/usr/bin/node mrix" ∷ "/usr/bin/curl mrix" ∷ "/usr/bin/wget mrix" ∷ []

securityengineer_filesystem_rules : List String
securityengineer_filesystem_rules =
    "/workspace/** rwmlk" ∷ "/tmp/** rwmlk" ∷ "/run/** rwmlk" ∷ "/home/executor/** rwmlk"
    ∷ "/usr/bin/git mrix" ∷ "/usr/bin/python* mrix" ∷ "/usr/bin/node mrix" ∷ "/usr/bin/curl mrix"
    ∷ "/usr/bin/wget mrix" ∷ "/usr/bin/nmap mrix" ∷ "/usr/bin/nikto mrix" ∷ "/usr/bin/gobuster mrix"
    ∷ "/usr/bin/sqlmap mrix" ∷ "/usr/bin/gh mrix" ∷ []

explore_filesystem_rules : List String
explore_filesystem_rules =
    "/workspace/** r" ∷ "/tmp/** r" ∷ "/run/** r" ∷ "/home/executor/** r" ∷ "/usr/bin/git mrix"
    ∷ "/usr/bin/python* mrix" ∷ "/usr/bin/node mrix" ∷ "/usr/bin/curl mrix" ∷ "/usr/bin/gh mrix"
    ∷ []

unfoldable pub agent_filesystem_rules : Dict String (List String)
unfolding coder_filesystem_rules devops_filesystem_rules qa_filesystem_rules
    securityengineer_filesystem_rules explore_filesystem_rules
agent_filesystem_rules =
    ("coder", coder_filesystem_rules)
    ∷ ("devops", devops_filesystem_rules)
    ∷ ("qa", qa_filesystem_rules)
    ∷ ("securityengineer", securityengineer_filesystem_rules)
    ∷ ("explore", explore_filesystem_rules)
    ∷ []

coder_network_rules : List AppArmorNetwork
coder_network_rules = inet_tcp ∷ inet6_tcp ∷ unix_stream ∷ unix_dgram ∷ []

devops_network_rules : List AppArmorNetwork
devops_network_rules =
    inet_tcp ∷ inet_udp ∷ inet6_tcp ∷ inet6_udp ∷ unix_stream ∷ unix_dgram ∷ netlink_raw ∷ []

qa_network_rules : List AppArmorNetwork
qa_network_rules = inet_tcp ∷ inet6_tcp ∷ unix_stream ∷ unix_dgram ∷ []

securityengineer_network_rules : List AppArmorNetwork
securityengineer_network_rules =
    inet_tcp ∷ inet_udp ∷ inet6_tcp ∷ inet6_udp ∷ unix_stream ∷ unix_dgram ∷ packet_raw ∷ []

explore_network_rules : List AppArmorNetwork
explore_network_rules = inet_tcp ∷ inet6_tcp ∷ unix_stream ∷ unix_dgram ∷ []

unfoldable pub agent_network_rules : Dict String (List AppArmorNetwork)
unfolding coder_network_rules devops_network_rules qa_network_rules securityengineer_network_rules
    explore_network_rules
agent_network_rules =
    ("coder", coder_network_rules)
    ∷ ("devops", devops_network_rules)
    ∷ ("qa", qa_network_rules)
    ∷ ("securityengineer", securityengineer_network_rules)
    ∷ ("explore", explore_network_rules)
    ∷ []

unfoldable pub base_abstractions : List String
base_abstractions = "base" ∷ "nameservice" ∷ "ssl_certs" ∷ "crypto" ∷ []

unfoldable pub common_readonly_paths : List String
common_readonly_paths =
    "/etc/passwd r" ∷ "/etc/group r" ∷ "/etc/nsswitch.conf r" ∷ "/etc/resolv.conf r"
    ∷ "/etc/hosts r" ∷ "/etc/hostname r" ∷ "/etc/ssl/** r" ∷ "/usr/lib/** r" ∷ "/usr/share/** r"
    ∷ "/lib/** r" ∷ "/lib64/** r" ∷ "/proc/*/status r" ∷ "/proc/*/mounts r" ∷ "/proc/filesystems r"
    ∷ "/proc/sys/kernel/ngroups_max r" ∷ "/sys/devices/system/cpu/** r" ∷ "/dev/null rw"
    ∷ "/dev/zero rw" ∷ "/dev/random r" ∷ "/dev/urandom r" ∷ "/dev/stdin r" ∷ "/dev/stdout w"
    ∷ "/dev/stderr w" ∷ []

unfoldable pub always_deny_paths : List String
always_deny_paths =
    "/boot/**" ∷ "/root/**" ∷ "/etc/shadow" ∷ "/etc/sudoers" ∷ "/etc/sudoers.d/**"
    ∷ "/etc/apparmor/**" ∷ "/etc/apparmor.d/**" ∷ "/sys/kernel/security/**" ∷ "/proc/sysrq-trigger"
    ∷ "/proc/kcore" ∷ "/proc/kallsyms" ∷ "/proc/sys/kernel/**" ∷ []
