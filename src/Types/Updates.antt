-- ===== src/Types/Updates.antt =====
-- Assigning members of `struct irpc_info` (libirpc.h) values of their types.
use libirpc.Prelude.{◌*◌, List, ℤ, IsInt}
use libirpc.Types.{
  IrpcConnectionInfo, IrpcDevice, IrpcDeviceHandle, IrpcDeviceList, IrpcDeviceDescriptor, IrpcInfo,
  irpc_max_devs, irpc_max_data,
}
use libirpc.Types.Bounds.{IsDevice, IsDescriptor, IsBytes, IsDevices, IsInfo}

module _ {i : IrpcInfo} (h : IsInfo i) where
  pub IsInfo-dev : {d : IrpcDevice} → IsDevice d → IsInfo (record i { dev = d })
  IsInfo-dev p = assumption

  pub IsInfo-ci : {c : IrpcConnectionInfo} → IsInfo (record i { ci = c })
  IsInfo-ci = assumption

  pub IsInfo-devlist :
      {l : IrpcDeviceList}
      → IsInt l.n_devs
      → IsDevices irpc_max_devs l.devs
      → IsInfo (record i { devlist = l })
  IsInfo-devlist p q = assumption

  pub IsInfo-desc : {d : IrpcDeviceDescriptor} → IsDescriptor d → IsInfo (record i { desc = d })
  IsInfo-desc p = assumption

  pub IsInfo-handle : {d : IrpcDeviceHandle} → IsDevice d.dev → IsInfo (record i { handle = d })
  IsInfo-handle p = assumption

  pub IsInfo-intf : {n : ℤ} → IsInt n → IsInfo (record i { intf = n })
  IsInfo-intf p = assumption

  pub IsInfo-buffer : {b : List ℤ} → IsBytes irpc_max_data b → IsInfo (record i { buffer = b })
  IsInfo-buffer p = assumption

  pub IsInfo-status :
      {n : ℤ} {b : List ℤ}
      → IsInt n
      → IsBytes irpc_max_data b
      → IsInfo (record i { status = n; buffer = b })
  IsInfo-status p q = assumption

  pub IsInfo-buf :
      {b c : List ℤ}
      → IsBytes irpc_max_data b
      → IsBytes (4 * irpc_max_data) c
      → IsInfo (record i { buffer = b; buf = c })
  IsInfo-buf p q = assumption

  pub IsInfo-length : {n : ℤ} → IsInt n → IsInfo (record i { length = n })
  IsInfo-length p = assumption
