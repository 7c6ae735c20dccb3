-- ===== src/Seccomp/Syscalls.antt =====
-- The system calls that src/sandbox/seccomp.py lists.
use tacktcix.Prelude.{String, List, [], ◌∷◌}

-- Before `sorted`.
unfoldable pub safe_syscalls : List String
safe_syscalls =
    "read" ∷ "write" ∷ "close" ∷ "lseek" ∷ "pread64" ∷ "pwrite64" ∷ "readv" ∷ "writev" ∷ "dup"
    ∷ "dup2" ∷ "dup3" ∷ "fcntl" ∷ "ioctl" ∷ "mmap" ∷ "mprotect" ∷ "munmap" ∷ "brk" ∷ "mremap"
    ∷ "madvise" ∷ "mseal" ∷ "clone" ∷ "clone3" ∷ "fork" ∷ "vfork" ∷ "execve" ∷ "execveat" ∷ "exit"
    ∷ "exit_group" ∷ "wait4" ∷ "waitid" ∷ "getpid" ∷ "getppid" ∷ "gettid" ∷ "getuid" ∷ "geteuid"
    ∷ "getgid" ∷ "getegid" ∷ "rt_sigaction" ∷ "rt_sigprocmask" ∷ "rt_sigreturn" ∷ "sigaltstack"
    ∷ "kill" ∷ "tgkill" ∷ "stat" ∷ "lstat" ∷ "fstat" ∷ "newfstatat" ∷ "openat" ∷ "openat2"
    ∷ "getdents64" ∷ "mkdir" ∷ "mkdirat" ∷ "rmdir" ∷ "unlink" ∷ "unlinkat" ∷ "rename" ∷ "renameat"
    ∷ "renameat2" ∷ "link" ∷ "linkat" ∷ "symlink" ∷ "symlinkat" ∷ "readlink" ∷ "readlinkat"
    ∷ "chdir" ∷ "fchdir" ∷ "getcwd" ∷ "chmod" ∷ "fchmod" ∷ "fchmodat" ∷ "chown" ∷ "fchown"
    ∷ "fchownat" ∷ "access" ∷ "faccessat" ∷ "faccessat2" ∷ "clock_gettime" ∷ "clock_nanosleep"
    ∷ "nanosleep" ∷ "gettimeofday" ∷ "time" ∷ "sched_yield" ∷ "sched_getaffinity"
    ∷ "sched_setaffinity" ∷ "futex" ∷ "futex_waitv" ∷ "futex_wake" ∷ "socket" ∷ "connect" ∷ "bind"
    ∷ "listen" ∷ "accept" ∷ "accept4" ∷ "sendto" ∷ "recvfrom" ∷ "sendmsg" ∷ "recvmsg"
    ∷ "getsockname" ∷ "getpeername" ∷ "getsockopt" ∷ "setsockopt" ∷ "shutdown" ∷ "poll" ∷ "ppoll"
    ∷ "epoll_create1" ∷ "epoll_ctl" ∷ "epoll_wait" ∷ "epoll_pwait" ∷ "getrandom" ∷ "getdents"
    ∷ "arch_prctl" ∷ "set_tid_address" ∷ "set_robust_list" ∷ "prlimit64" ∷ "rseq" ∷ "uname"
    ∷ "getrusage" ∷ "getrlimit" ∷ "prctl" ∷ "seccomp" ∷ []

unfoldable pub restrictive_removed : List String
restrictive_removed =
    "clone" ∷ "clone3" ∷ "fork" ∷ "vfork" ∷ "execve" ∷ "execveat" ∷ "ptrace" ∷ "process_vm_readv"
    ∷ "process_vm_writev" ∷ "socket" ∷ "connect" ∷ "bind" ∷ "listen" ∷ "accept" ∷ "accept4"
    ∷ "sendto" ∷ "recvfrom" ∷ "sendmsg" ∷ "recvmsg" ∷ "shutdown" ∷ "socketpair" ∷ "kill" ∷ "tgkill"
    ∷ "tkill" ∷ []

unfoldable pub permissive_extras : List String
permissive_extras =
    "ptrace" ∷ "process_vm_readv" ∷ "process_vm_writev" ∷ "socketpair" ∷ "pipe" ∷ "pipe2"
    ∷ "eventfd" ∷ "eventfd2" ∷ "memfd_create" ∷ "memfd_secret" ∷ "userfaultfd" ∷ "bpf"
    ∷ "perf_event_open" ∷ []

unfoldable pub always_blocked : List String
always_blocked =
    "reboot" ∷ "kexec_load" ∷ "kexec_file_load" ∷ "init_module" ∷ "finit_module" ∷ "delete_module"
    ∷ "create_module" ∷ "ioperm" ∷ "iopl" ∷ "ioprio_set" ∷ "ioprio_get" ∷ "kcmp" ∷ "move_pages"
    ∷ "mbind" ∷ "migrate_pages" ∷ "add_key" ∷ "request_key" ∷ "keyctl" ∷ "lookup_dcookie"
    ∷ "nfsservctl" ∷ "_sysctl" ∷ "acct" ∷ "modify_ldt" ∷ "pivot_root" ∷ "setns" ∷ "unshare"
    ∷ "mount" ∷ "umount2" ∷ "swapon" ∷ "swapoff" ∷ "personality" ∷ "syslog" ∷ "setuid" ∷ "setgid"
    ∷ "setreuid" ∷ "setregid" ∷ "setresuid" ∷ "setresgid" ∷ "setfsuid" ∷ "setfsgid" ∷ "capset"
    ∷ "capget" ∷ "chroot" ∷ []
