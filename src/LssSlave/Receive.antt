-- ===== src/LssSlave/Receive.antt =====
-- stack/CO_LSSslave.c: the dispatch of a received message.
use canopen_node.Driver.{RxMsg, data_at}
use canopen_node.Lss.{is_switch_global, is_switch_state_selective, is_config, is_inquire, is_ident}
use canopen_node.LssSlave.{Slave, Served, silently}
use canopen_node.LssSlave.Services.{
  service_switch_state_global, service_switch_state_selective, service_config, service_inquire,
}
use canopen_node.LssSlave.Fastscan.{service_ident}
use canopen_node.Prelude.{◌==◌, if◌then◌else◌}

-- `CO_LSSslave_receive`
unfoldable pub receive : Slave → RxMsg → Served
receive slave msg =
    let cs = data_at msg 0 in
    if msg.dlc == 8
    then if is_switch_global cs
      then service_switch_state_global slave msg
      else if is_switch_state_selective cs
      then service_switch_state_selective slave cs msg
      else if is_config cs
      then service_config slave cs msg
      else if is_inquire cs
      then service_inquire slave cs
      else if is_ident cs
      then service_ident slave cs msg
      else silently slave
    else silently slave
