-- ===== src/Workload.antt =====
-- Names and owners of workloads (operator/internal/workload and operator/internal/clientreg).
pub mod Owner
pub mod ClientReg
