-- ===== src/Base/Codes.antt =====
-- `ARC_CODES` of arcfw/inc/arccodes.h, the status every loader and firmware routine returns.
pub data Status : Type 0 where
  esuccess e2big eacces eagain ebadf ebusy efault einval eio eisdir emfile emlink : Status
  enametoolong enodev enoent enoexec enomem enospc enotdir enotty enxio erofs emaximum : Status
