-- ===== src/Rpc/Define.antt =====
-- rpc/define.go: what the client sends and receives. A float64 and the unsigned integers are bit
-- patterns, and the value of an `interface{}` is its JSON text.
use go_netflow.Base.{ℕ, Bool, Option, List}
use go_netflow.Base.Bytes.{Bytes}
use go_netflow.Base.Int64.{Int64}

pub record CpuInfo : Type 0 where
  pub cache_size : Int64
  pub cores : Int64
  pub cpu_no : Int64
  pub family : Bytes
  pub flags : Bytes
  pub ghz : Int64
  pub mhz : Int64
  pub microcode : Bytes
  pub model : Bytes
  pub model_name : Bytes
  pub name : Bytes
  pub physical_id : Bytes
  pub stepping : Int64
  pub vendor_id : Bytes

pub record DiskInfo : Type 0 where
  pub id : Bytes
  pub size : Int64
  pub media : Bytes
  pub serial_number : Bytes

pub record MemoryInfo : Type 0 where
  pub mhz : Int64
  pub serial_no : Bytes
  pub size : Int64
  pub slot : Bytes
  pub type : Bytes

pub record DialingInfo : Type 0 where
  pub account : Bytes
  pub connected : Bool
  pub enable_v6 : Int64
  pub failed_reason : Bytes
  pub gateway : Bytes
  pub ip : Bytes
  pub pppoe_name : Bytes
  pub port : Int64
  pub mac : Bytes
  pub mask : Bytes
  pub number : Int64
  pub password : Bytes
  pub pppoe_ac : Bytes
  pub pppoe_service : Bytes
  pub successed : Bool
  pub v4_proto : Bytes
  pub v6_connected : Bool
  pub v6_gateway : Bytes
  pub v6_ip : Bytes
  pub v6_mask_len : Int64
  pub v6_proto : Bytes
  pub v6_successed : Bool
  pub vlan_id : Bytes

pub record NetCardInfo : Type 0 where
  pub dialing_info : List DialingInfo
  pub ip : Bytes
  pub is_manager : Bool
  pub is_valid : Bool
  pub name : Bytes
  pub speed : Int64

pub record DeviceInfo : Type 0 where
  pub cpus : List CpuInfo
  pub disks : List DiskInfo
  pub hostname : Bytes
  pub memories : List MemoryInfo
  pub model : Bytes
  pub net_cards : List NetCardInfo
  pub os_version : Bytes
  pub sn : Bytes

pub record RegisterRsp : Type 0 where
  pub code_url : Bytes
  pub device_id : Bytes
  pub frpc_port : Int64
  pub frps_host : Bytes
  pub frps_port : Int64
  pub influx_db_host : Bytes
  pub influx_db_port : Int64

pub record DiskTestTask : Type 0 where
  pub is_valid : Bool
  pub time : Int64

pub record MonitorInfo : Type 0 where
  pub cpu_usage : ℕ
  pub disk_usage : ℕ
  pub down_bandwidth : ℕ
  pub mem_usage : ℕ
  pub timestamp : Int64
  pub up_bandwidth : ℕ

pub record Netcards : Type 0 where
  pub modify_time : Int64
  pub dialing_type : Bytes
  pub netcards : List NetCardInfo

pub record NetworkTestInfo : Type 0 where
  pub ip : Bytes
  pub limit : Option Bytes
  pub port : Int64

pub record NetworkTestTask : Type 0 where
  pub is_valid : Bool
  pub time : Int64
  pub network_test_info : List NetworkTestInfo

pub record Upgrade : Type 0 where
  pub is_valid : Bool
  pub md5 : Bytes
  pub url : Bytes

pub record DeployDeviceInfo : Type 0 where
  pub biz_type : Int64
  pub device_id : Bytes
  pub single_bandwidth : Int64
  pub sub_biztype : Int64

pub record Deployment : Type 0 where
  pub action : Bytes
  pub bandwidth : Int64
  pub cmd : Bytes
  pub deployment_id : Bytes
  pub desc : Bytes
  pub device_info : DeployDeviceInfo
  pub from : Bytes
  pub is_out_province : Int64

pub record HeartbeatRsp : Type 0 where
  pub disk_test_task : DiskTestTask
  pub netcards : Netcards
  pub network_test_task : NetworkTestTask
  pub next_heart_beat_time : Int64
  pub upgrade : Upgrade
  pub deployment : Deployment

pub record DeploymentStatusResult : Type 0 where
  pub deployment_id : Bytes
  pub status : Int64
  pub fail_reason : Bytes

pub record LineQuality : Type 0 where
  pub name : Bytes
  pub ip : Bytes
  pub avg_up_bandwidth : Bytes
  pub network_delay : Int64
  pub packet_loss_rate : Int64

pub record NetworkTestResult : Type 0 where
  pub type : Bytes
  pub max_test_bandwidth : Bytes
  pub avg_test_bandwidth : Bytes
  pub up_bandwidth_test_time : Bytes
  pub duration : Bytes
  pub line_quality : List LineQuality
  pub tcp_retransmission_ratio : Int64

pub record DiskQuality : Type 0 where
  pub id : Bytes
  pub iops : Int64
  pub bandwidth : Int64

pub record DiskResults : Type 0 where
  pub type : Bytes
  pub disk_quality : List DiskQuality
