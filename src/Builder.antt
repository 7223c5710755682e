-- ===== src/Builder.antt =====
-- pkg/build: what the builder of Go plans in docker sets up around a build.
pub mod Text
pub mod GoProxy
pub mod CacheImage
pub mod DockerGo
