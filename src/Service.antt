-- ===== src/Service.antt =====
-- include/service/service.hpp and the services: links, switches, machines, masters and dummies.
pub mod Queueing
pub mod Tests
pub mod Link
pub mod Switch
pub mod Machine
pub mod Master
