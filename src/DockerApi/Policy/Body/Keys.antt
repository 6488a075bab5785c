-- ===== src/DockerApi/Policy/Body/Keys.antt =====
-- The key sets and wire types of `DBStartPolicy`.
use hosted_replay_harness.Prelude.{ℕ, String, Bool, List, [], ◌∷◌, ◌==◌}
use hosted_replay_harness.DockerApi.Json.{
  Kind, null_kind, boolean_kind, string_kind, array_kind, object_kind, number_kind,
}

abbrev index : Kind → ℕ
index null_kind = 0
index boolean_kind = 1
index string_kind = 2
index array_kind = 3
index object_kind = 4
index number_kind = 5

abbrev pub kind_eq : Kind → Kind → Bool
kind_eq a b = index a == index b

abbrev pub db_config_wire_types : List (String × Kind)
db_config_wire_types =
    ("AttachStderr", boolean_kind)
    ∷ ("AttachStdin", boolean_kind)
    ∷ ("AttachStdout", boolean_kind)
    ∷ ("Cmd", null_kind)
    ∷ ("Domainname", string_kind)
    ∷ ("Entrypoint", array_kind)
    ∷ ("Env", array_kind)
    ∷ ("Healthcheck", object_kind)
    ∷ ("Hostname", string_kind)
    ∷ ("Image", string_kind)
    ∷ ("Labels", object_kind)
    ∷ ("OnBuild", null_kind)
    ∷ ("OpenStdin", boolean_kind)
    ∷ ("StdinOnce", boolean_kind)
    ∷ ("Tty", boolean_kind)
    ∷ ("User", string_kind)
    ∷ ("Volumes", null_kind)
    ∷ ("WorkingDir", string_kind)
    ∷ []

abbrev pub gotrue_config_wire_types : List (String × Kind)
gotrue_config_wire_types =
    ("AttachStderr", boolean_kind)
    ∷ ("AttachStdin", boolean_kind)
    ∷ ("AttachStdout", boolean_kind)
    ∷ ("Cmd", array_kind)
    ∷ ("Domainname", string_kind)
    ∷ ("Entrypoint", null_kind)
    ∷ ("Env", array_kind)
    ∷ ("Hostname", string_kind)
    ∷ ("Image", string_kind)
    ∷ ("Labels", object_kind)
    ∷ ("OnBuild", null_kind)
    ∷ ("OpenStdin", boolean_kind)
    ∷ ("StdinOnce", boolean_kind)
    ∷ ("Tty", boolean_kind)
    ∷ ("User", string_kind)
    ∷ ("Volumes", null_kind)
    ∷ ("WorkingDir", string_kind)
    ∷ []

abbrev pub config_keys : List String
config_keys =
    "Hostname" ∷ "Domainname" ∷ "User" ∷ "AttachStdin" ∷ "AttachStdout" ∷ "AttachStderr"
    ∷ "ExposedPorts" ∷ "Tty" ∷ "OpenStdin" ∷ "StdinOnce" ∷ "Env" ∷ "Cmd" ∷ "Healthcheck"
    ∷ "ArgsEscaped" ∷ "Image" ∷ "Volumes" ∷ "WorkingDir" ∷ "Entrypoint" ∷ "NetworkDisabled"
    ∷ "MacAddress" ∷ "OnBuild" ∷ "Labels" ∷ "StopSignal" ∷ "StopTimeout" ∷ "Shell" ∷ []

abbrev pub host_keys : List String
host_keys =
    "Annotations" ∷ "AutoRemove" ∷ "Binds" ∷ "BlkioDeviceReadBps" ∷ "BlkioDeviceReadIOps"
    ∷ "BlkioDeviceWriteBps" ∷ "BlkioDeviceWriteIOps" ∷ "BlkioWeight" ∷ "BlkioWeightDevice"
    ∷ "CapAdd" ∷ "CapDrop" ∷ "Cgroup" ∷ "CgroupParent" ∷ "CgroupnsMode" ∷ "ConsoleSize"
    ∷ "ContainerIDFile" ∷ "CpuCount" ∷ "CpuPercent" ∷ "CpuPeriod" ∷ "CpuQuota" ∷ "CpuRealtimePeriod"
    ∷ "CpuRealtimeRuntime" ∷ "CpuShares" ∷ "CpusetCpus" ∷ "CpusetMems" ∷ "DeviceCgroupRules"
    ∷ "DeviceRequests" ∷ "Devices" ∷ "Dns" ∷ "DnsOptions" ∷ "DnsSearch" ∷ "ExtraHosts" ∷ "GroupAdd"
    ∷ "IOMaximumBandwidth" ∷ "IOMaximumIOps" ∷ "Init" ∷ "IpcMode" ∷ "Isolation" ∷ "KernelMemoryTCP"
    ∷ "Links" ∷ "LogConfig" ∷ "MaskedPaths" ∷ "Memory" ∷ "MemoryReservation" ∷ "MemorySwap"
    ∷ "MemorySwappiness" ∷ "Mounts" ∷ "NanoCpus" ∷ "NetworkMode" ∷ "OomKillDisable" ∷ "OomScoreAdj"
    ∷ "PidMode" ∷ "PidsLimit" ∷ "PortBindings" ∷ "Privileged" ∷ "PublishAllPorts" ∷ "ReadonlyPaths"
    ∷ "ReadonlyRootfs" ∷ "RestartPolicy" ∷ "Runtime" ∷ "SecurityOpt" ∷ "ShmSize" ∷ "StorageOpt"
    ∷ "Sysctls" ∷ "Tmpfs" ∷ "UTSMode" ∷ "Ulimits" ∷ "UsernsMode" ∷ "VolumeDriver" ∷ "VolumesFrom"
    ∷ []

abbrev pub network_create_keys : List String
network_create_keys =
    "Name" ∷ "CheckDuplicate" ∷ "Driver" ∷ "Internal" ∷ "Attachable" ∷ "Ingress" ∷ "IPAM"
    ∷ "EnableIPv6" ∷ "Options" ∷ "Labels" ∷ "Scope" ∷ "ConfigOnly" ∷ "ConfigFrom" ∷ []

abbrev pub volume_create_keys : List String
volume_create_keys = "Name" ∷ "Driver" ∷ "DriverOpts" ∷ "Labels" ∷ "ClusterVolumeSpec" ∷ []

abbrev pub endpoint_keys : List String
endpoint_keys =
    "IPAMConfig" ∷ "Links" ∷ "Aliases" ∷ "MacAddress" ∷ "DriverOpts" ∷ "GwPriority" ∷ "NetworkID"
    ∷ "EndpointID" ∷ "Gateway" ∷ "IPAddress" ∷ "IPPrefixLen" ∷ "IPv6Gateway" ∷ "GlobalIPv6Address"
    ∷ "GlobalIPv6PrefixLen" ∷ "DNSNames" ∷ []
