-- ===== src/Build/Escalate.antt =====
-- Two ways in which a build of retinue/container_build.py ends with an exception.
use the_retinue.Base.{nat_eq, list_eq}
