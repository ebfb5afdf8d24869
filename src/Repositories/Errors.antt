-- ===== src/Repositories/Errors.antt =====
-- server/src/data/repositories/util.ts, with the messages of resources.ts, which are the same for
-- every resource.
use home_gate.Effects.{
  Error, bad_request, not_found, conflict, internal_server_error, service_unavailable, http,
}

-- The codes of PrismaClientKnownRequestError that are told apart, and any other.
pub data PrismaCode : Type 0 where
  p2002 p2003 p2014 p2000 p2005 p2006 p2011 p2012 p2013 p2020 p2025 p2024 p2034 : PrismaCode
  unknown_code : PrismaCode

pub map_prisma_error : PrismaCode → Error
map_prisma_error p2002 = http conflict "Request conflicts with existing data."
map_prisma_error p2003 = http conflict "Request conflicts with existing data."
map_prisma_error p2014 = http conflict "Request conflicts with existing data."
map_prisma_error p2025 = http not_found "Requested resource was not found."
map_prisma_error p2024 =
    http service_unavailable "Service is temporarily unavailable. Please try again."
map_prisma_error p2034 =
    http service_unavailable "Service is temporarily unavailable. Please try again."
map_prisma_error unknown_code =
    http internal_server_error "Unable to process the request at this time."
map_prisma_error _ = http bad_request "Request data is invalid."
